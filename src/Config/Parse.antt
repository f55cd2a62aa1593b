-- ===== src/Config/Parse.antt =====
-- RuntimeConfig::parseFromFile and the constructor (RuntimeConfig.cpp). The log calls print only.
pub mod Sections
use carts.Base.{ℕ, Bool, true, false, ◌&&◌, ◌==◌, if◌then◌else◌, Option, none, some, List, [], ◌∷◌}
use carts.Base.Int.{pos, negsuc}
use carts.Config.{Bytes, codes, RuntimeConfig, defaults}
use carts.Config.Text.{bytes_eq, trim, get_lines, split_csv, parse_int, parse_bool}
use carts.Config.Validate.{validate_configuration}

-- The chain of tests on the key. A number that the chain reads without a default of its own
-- defaults to -1.
unfoldable pub assign : RuntimeConfig → Bytes → Bytes → RuntimeConfig
assign c key val =
    if bytes_eq key (codes "worker_threads")
    then record c { threads = parse_int val (negsuc 0) }
    else if bytes_eq key (codes "node_count")
    then record c { node_count = parse_int val (negsuc 0) }
    else if bytes_eq key (codes "nodes")
    then record c { nodes = split_csv val }
    else if bytes_eq key (codes "master_node")
    then record c { master_node = val }
    else if bytes_eq key (codes "launcher")
    then record c { launcher = val }
    else if bytes_eq key (codes "scheduler")
    then record c { scheduler = parse_int val (pos 0) }
    else if bytes_eq key (codes "gpu")
    then record c { gpu = parse_int val (pos 0) }
    else if bytes_eq key (codes "gpu_route_table_size")
    then record c { gpu_route_table_size = parse_int val (pos 12) }
    else if bytes_eq key (codes "gpu_locality")
    then record c { gpu_locality = parse_int val (pos 0) }
    else if bytes_eq key (codes "gpu_fit")
    then record c { gpu_fit = parse_int val (pos 0) }
    else if bytes_eq key (codes "gpu_lc_sync")
    then record c { gpu_lc_sync = parse_int val (pos 0) }
    else if bytes_eq key (codes "gpu_buff_on")
    then record c { gpu_buffer_on = parse_bool val true }
    else if bytes_eq key (codes "gpu_max_memory")
    then record c { gpu_max_memory = parse_int val (negsuc 0) }
    else if bytes_eq key (codes "gpu_max_edts")
    then record c { gpu_max_edts = parse_int val (negsuc 0) }
    else if bytes_eq key (codes "sender_threads")
    then record c { outgoing = parse_int val (pos 0) }
    else if bytes_eq key (codes "receiver_threads")
    then record c { incoming = parse_int val (pos 0) }
    else if bytes_eq key (codes "port_count")
    then record c { ports = parse_int val (pos 0) }
    else if bytes_eq key (codes "protocol")
    then record c { protocol = val }
    else if bytes_eq key (codes "default_ports")
    then record c { port = parse_int val (pos 34739) }
    else if bytes_eq key (codes "net_interface")
    then record c { net_interface = val }
    else if bytes_eq key (codes "pin")
    then record c { pin_stride = parse_int val (pos 1) }
    else if bytes_eq key (codes "worker_init_deque_size")
    then record c { worker_init_deque_size = parse_int val (pos 2048) }
    else if bytes_eq key (codes "route_table_size")
    then record c { route_table_size = parse_int val (pos 16) }
    else if bytes_eq key (codes "min_iterations_per_worker")
    then record c { min_iterations_per_worker = parse_int val (pos 0) }
    else if bytes_eq key (codes "core_dump")
    then record c { core_dump = parse_bool val false }
    else if bytes_eq key (codes "counter_folder")
    then record c { counter_folder = val }
    else if bytes_eq key (codes "counter_capture_interval")
    then record c { counter_start_point = parse_int val (pos 1) }
    else if bytes_eq key (codes "kill_mode")
    then record c { kill_mode = parse_bool val false }
    else c

-- line.find('='), with what stands before it and after it
split_equals : Bytes → Option (Bytes × Bytes)
split_equals [] = none
split_equals (c ∷ cs) =
    let rest = split_equals cs in
    if c == b'='
    then some ([], cs)
    else elim rest [ none ↦ none | some (key, val) ↦ some (c ∷ key, val) ]

last_byte : ℕ → Bytes → ℕ
last_byte c [] = c
last_byte c (d ∷ ds) = last_byte d ds

pub record ParseState : Type 0 where
  pub config : RuntimeConfig
  pub in_arts_section : Bool

assign_line : ParseState → Option (Bytes × Bytes) → ParseState
assign_line st none = st
assign_line st (some (key, val)) = record st { config = assign st.config (trim key) (trim val) }

-- The body of the loop on a line that is trimmed.
parse_trimmed : ParseState → Bytes → ParseState
unfolding split_equals last_byte assign_line
parse_trimmed st [] = st
parse_trimmed st (c ∷ cs) =
    if c == b'#'
    then st
    else if c == b'[' && last_byte c cs == b']'
    then record st { in_arts_section = bytes_eq (c ∷ cs) (codes "[ARTS]") }
    else if st.in_arts_section
    then assign_line st (split_equals (c ∷ cs))
    else st

unfoldable pub parse_line : ParseState → Bytes → ParseState
unfolding parse_trimmed
parse_line st line = parse_trimmed st (trim line)

unfoldable pub parse_lines : ParseState → List Bytes → ParseState
parse_lines st [] = st
parse_lines st (line ∷ lines) = parse_lines (parse_line st line) lines

-- The text of the file, or `none` where it cannot be opened; the Boolean that is returned.
unfoldable pub parse_from_file : RuntimeConfig → Option Bytes → RuntimeConfig × Bool
parse_from_file c none = (c, false)
parse_from_file c (some text) =
    let start : ParseState = record {
      config = record c { config_file_exists = true };
      in_arts_section = false;
    } in
    ((parse_lines start (get_lines 10 text)).config, true)

-- What the constructor asks of std::filesystem; `none` is an error code.
pub record FileSystem : Type 0 where
  pub current_path : Option Bytes
  pub absolute : Bytes → Option Bytes
  pub join : Bytes → Bytes → Bytes
  pub contents : Bytes → Option Bytes

or_else : Option Bytes → Bytes → Bytes
or_else none d = d
or_else (some p) d = p

default_config_path : FileSystem → Bytes
default_config_path fs = elim fs.current_path [
  | none ↦ []
  | some cwd ↦ fs.join cwd (codes "arts.cfg")
]

-- The path of an explicit file, or the default one.
resolve_path : FileSystem → Bytes → Bytes
unfolding or_else default_config_path
resolve_path fs [] = default_config_path fs
resolve_path fs (c ∷ cs) = or_else (fs.absolute (c ∷ cs)) (c ∷ cs)

-- The rest of the constructor, from the result of parseFromFile.
finish : RuntimeConfig × Bool → RuntimeConfig
finish (c, false) = record c { config_file_exists = false }
finish (c, true) = (validate_configuration c).0

unfoldable pub load : FileSystem → Bytes → RuntimeConfig
unfolding resolve_path finish
load fs config_file =
    let path = resolve_path fs config_file in
    finish (parse_from_file (record defaults { config_path = path }) (fs.contents path))
