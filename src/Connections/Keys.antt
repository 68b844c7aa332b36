-- ===== src/Connections/Keys.antt =====
-- The texts of connection_manager.cpp in Redis and in JSON, as bytes.
use Prim.Native.Char.{code}
use Prim.Native.String.{String}
use my_chat.Prelude.{ℕ, List, [], ◌∷◌}

-- The code points of a text: its bytes, as it is ASCII.
abbrev pub codes : String → List ℕ
codes String.[] = []
codes (String.◌∷◌ c s) = code c ∷ codes s

abbrev pub sessions_text : List ℕ
sessions_text = codes "user:sessions"

abbrev pub platform_text : List ℕ
platform_text = codes "user:platform"

abbrev pub session_user_text : List ℕ
session_user_text = codes "session:user"

abbrev pub online_users : List ℕ
online_users = codes "online:users"

abbrev pub session_id_key : List ℕ
session_id_key = codes "session_id"

abbrev pub device_id_key : List ℕ
device_id_key = codes "device_id"

abbrev pub platform_key : List ℕ
platform_key = codes "platform"

abbrev pub connect_time_key : List ℕ
connect_time_key = codes "connect_time"

abbrev pub user_id_key : List ℕ
user_id_key = codes "user_id"
