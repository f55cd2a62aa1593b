-- ===== src/Config.antt =====
-- The runtime configuration: include/carts/dialect/arts/Utils/RuntimeConfig.h. An int
-- is an integer, and its arithmetic is brought back to 32 bits as the machine's wraps around, which
-- is one of the things C++ allows where an int overflows. The children model the parser and the
-- validation of lib/carts/dialect/arts/Utils/RuntimeConfig.cpp.
pub mod Workers
pub mod Text
pub mod Parse
pub mod Validate
mod Examples
use carts.Base.{ℕ, ◌-◌, ◌%◌, ◌^◌, ltb, Bool, true, false, ◌&&◌, if◌then◌else◌, List, [], ◌∷◌}
use carts.Base.Int.{ℤ, pos, negsuc, ◌+ℤ◌, ◌*ℤ◌, ltb_ℤ, eqb_ℤ}
use Prim.Native.Char.{code}
use Prim.Native.String.{String}

-- A std::string is the list of its bytes.
abbrev pub Bytes : Type 0
Bytes = List ℕ

abbrev pub codes : String → Bytes
codes String.[] = []
codes (String.◌∷◌ c s) = code c ∷ codes s

pub data ExecutionMode : Type 0 where
  single_threaded intra_node inter_node : ExecutionMode

pub record RuntimeConfig : Type 0 where
  pub threads : ℤ
  pub node_count : ℤ
  pub nodes : List Bytes
  pub master_node : Bytes
  pub launcher : Bytes
  pub scheduler : ℤ
  pub gpu : ℤ
  pub gpu_route_table_size : ℤ
  pub gpu_locality : ℤ
  pub gpu_fit : ℤ
  pub gpu_lc_sync : ℤ
  pub gpu_buffer_on : Bool
  pub gpu_max_memory : ℤ
  pub gpu_max_edts : ℤ
  pub outgoing : ℤ
  pub incoming : ℤ
  pub ports : ℤ
  pub protocol : Bytes
  pub port : ℤ
  pub net_interface : Bytes
  pub pin_stride : ℤ
  pub worker_init_deque_size : ℤ
  pub route_table_size : ℤ
  pub min_iterations_per_worker : ℤ
  pub core_dump : Bool
  pub counter_folder : Bytes
  pub counter_start_point : ℤ
  pub kill_mode : Bool
  pub config_path : Bytes
  pub config_file_exists : Bool
  pub is_valid_flag : Bool

abbrev pub defaults : RuntimeConfig
defaults = record {
  threads = pos 1;
  node_count = pos 1;
  nodes = codes "localhost" ∷ [];
  master_node = codes "localhost";
  launcher = codes "ssh";
  scheduler = pos 0;
  gpu = pos 0;
  gpu_route_table_size = pos 12;
  gpu_locality = pos 0;
  gpu_fit = pos 0;
  gpu_lc_sync = pos 0;
  gpu_buffer_on = true;
  gpu_max_memory = negsuc 0;
  gpu_max_edts = negsuc 0;
  outgoing = pos 0;
  incoming = pos 0;
  ports = pos 0;
  protocol = codes "tcp";
  port = pos 34739;
  net_interface = [];
  pin_stride = pos 1;
  worker_init_deque_size = pos 2048;
  route_table_size = pos 16;
  min_iterations_per_worker = pos 0;
  core_dump = false;
  counter_folder = codes "./counters";
  counter_start_point = pos 1;
  kill_mode = false;
  config_path = [];
  config_file_exists = false;
  is_valid_flag = false;
}

-- The int of 32 bits that a sum or a product of ints is.
unfoldable pub int32 : ℤ → ℤ
int32 (pos n) =
    let low = n % 2 ^ 32 in if ltb low (2 ^ 31) then pos low else negsuc (2 ^ 32 - 1 - low)
int32 (negsuc n) =
    let low = n % 2 ^ 32 in if ltb low (2 ^ 31) then negsuc low else pos (2 ^ 32 - 1 - low)

-- Workers on a node; a single node takes back its sender and receiver threads.
unfoldable pub get_runtime_workers_per_node : RuntimeConfig → ℤ
get_runtime_workers_per_node c =
    let workers =
      if ltb_ℤ (pos 1) c.node_count
      then c.threads
      else int32 (c.threads +ℤ int32 (c.outgoing +ℤ c.incoming)) in
    if ltb_ℤ (pos 0) workers then workers else pos 1

unfoldable pub get_runtime_total_workers : RuntimeConfig → ℤ
get_runtime_total_workers c =
    let nodes_count = if ltb_ℤ (pos 0) c.node_count then c.node_count else pos 1 in
    int32 (nodes_count *ℤ get_runtime_workers_per_node c)

unfoldable pub get_execution_mode : RuntimeConfig → ExecutionMode
get_execution_mode c =
    if ltb_ℤ (pos 1) c.node_count
    then inter_node
    else if ltb_ℤ (pos 1) (get_runtime_workers_per_node c)
    then intra_node
    else single_threaded

-- hasGpuSupport
unfoldable pub has_gpu_support : RuntimeConfig → Bool
has_gpu_support c = eqb_ℤ c.scheduler (pos 3) && ltb_ℤ (pos 0) c.gpu
