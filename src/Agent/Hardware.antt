-- ===== src/Agent/Hardware.antt =====
-- dmlf/agent/hardware.py: the address of the host, and the text of the memory size, as code points.
-- The agent formats the number of gigabytes with one decimal; the number's digits are the arguments.
use distributed_ml_training.Base.{ℕ, String, Option, none, some, List, [], ◌∷◌, ◌++◌}

-- The address that the socket shows: `none` where it cannot be connected.
unfoldable pub get_ip_address : Option String → String
get_ip_address none = "127.0.0.1"
get_ip_address (some ip) = ip

-- f"{gb:.1f}GB"
unfoldable pub get_ram_total : (whole : List ℕ) (tenth : ℕ) → List ℕ
get_ram_total whole tenth = whole ++ b'.' ∷ tenth ∷ b'G' ∷ b'B' ∷ []
