-- ===== src/Pager/Rpc.antt =====
-- The calls of the pager library: the server stubs of libpager/data-request.cc, data-return.cc,
-- data-unlock.cc, lock-completed.cc, object-init.cc, object-terminate.cc and dead-name.cc, and the
-- functions of pager-flush.cc, pager-sync.cc, pager-return.cc, pager-attr.cc, pager-shutdown.cc,
-- pager-create.cc and clean.cc.
use hurd.Base.{ℕ, Bool, true, false, [], ◌∷◌, Option, none, some, if◌then◌else◌}
use hurd.Pager.State.{Pager, ReturnMode, return_none, return_all, ports_destroy_right}
use hurd.Pager.Step.{M, report_extent, pure, ◌>>=◌, ◌>>◌, outside, send, do_if◌then◌else◌}
use hurd.Pager.Locks.{lock_completed}
use hurd.Pager.Request.{data_request, data_unlock, get_error}
use hurd.Pager.Writeback.{data_return}
use hurd.Pager.Clients.{object_init, object_terminate, dead_name, destroy}
use hurd.Pager.Control.{lock_object, change_attributes, shutdown}

-- What a server stub returns: 0 or EOPNOTSUPP.
pub data KernReturn : Type 0 where
  success eopnotsupp : KernReturn

-- The test `!p || p->port.port_class != _pager_class` of every stub, by its answer.
unfoldable pub stub : Bool → M (Unit {0}) → M KernReturn
stub is_pager m = do_if is_pager then (m >> pure success) else pure eopnotsupp

-- The messages of the kernel clients, and the calls of the filesystem.
pub data Request : Type 0 where
  -- control, name, page size
  memory_object_init : ℕ → ℕ → ℕ → Request
  -- control, name
  memory_object_terminate : ℕ → ℕ → Request
  -- control, offset, length, access
  memory_object_data_request memory_object_data_unlock : ℕ → ℕ → ℕ → ℕ → Request
  -- control, offset, length
  memory_object_lock_completed : ℕ → ℕ → ℕ → Request
  -- control, offset, data, length, dirty, kernel copy
  memory_object_data_return : ℕ → ℕ → ℕ → ℕ → Bool → Bool → Request
  -- the dead name
  dead_name_notification : ℕ → Request
  -- wait
  call_flush call_sync call_return : Bool → Request
  -- offset, size, wait
  call_flush_some call_sync_some call_return_some : ℕ → ℕ → Bool → Request
  -- may_cache, copy_strategy, wait
  call_change_attributes : Bool → ℕ → Bool → Request
  call_shutdown : Request

-- pager_report_extent, then the lock of the whole object.
unfoldable pub lock_extent : ReturnMode → Bool → Bool → M (Unit {0})
lock_extent mode flush wait = do
  r ← outside (report_extent ∷ [])
  lock_object (r 0).offset (r 0).size mode flush wait

abbrev pub pager_flush : Bool → M (Unit {0})
pager_flush wait = lock_extent return_none true wait

abbrev pub pager_flush_some : ℕ → ℕ → Bool → M (Unit {0})
pager_flush_some offset size wait = lock_object offset size return_none true wait

abbrev pub pager_sync : Bool → M (Unit {0})
pager_sync wait = lock_extent return_all false wait

abbrev pub pager_sync_some : ℕ → ℕ → Bool → M (Unit {0})
pager_sync_some offset size wait = lock_object offset size return_all false wait

abbrev pub pager_return : Bool → M (Unit {0})
pager_return wait = lock_extent return_all true wait

abbrev pub pager_return_some : ℕ → ℕ → Bool → M (Unit {0})
pager_return_some offset size wait = lock_object offset size return_all true wait

abbrev pub pager_change_attributes : Bool → ℕ → Bool → M (Unit {0})
pager_change_attributes may_cache copy_strategy wait =
    change_attributes may_cache copy_strategy wait

unfoldable pub pager_shutdown : M (Unit {0})
pager_shutdown = shutdown >> send ports_destroy_right

abbrev pub pager_get_error : ℕ → Pager → ℕ
pager_get_error offset s = get_error offset s

-- The server stubs `_pager_S_...`; the first argument is the answer of the test on the port class.
abbrev pub s_memory_object_init : Bool → ℕ → ℕ → ℕ → M KernReturn
s_memory_object_init is_pager control name pagesize = stub is_pager (object_init control pagesize)

abbrev pub s_memory_object_data_request : Bool → ℕ → ℕ → ℕ → ℕ → M KernReturn
s_memory_object_data_request is_pager control offset length access =
    stub is_pager (data_request control offset length access)

abbrev pub s_memory_object_data_unlock : Bool → ℕ → ℕ → ℕ → ℕ → M KernReturn
s_memory_object_data_unlock is_pager control offset length access =
    stub is_pager (data_unlock control offset length)

abbrev pub s_memory_object_lock_completed : Bool → ℕ → ℕ → ℕ → M KernReturn
s_memory_object_lock_completed is_pager control offset length =
    stub is_pager (lock_completed control offset length)

module _ (fuel : ℕ) where
  abbrev pub s_memory_object_terminate : Bool → ℕ → ℕ → M KernReturn
  s_memory_object_terminate is_pager control name =
      stub is_pager (object_terminate fuel control name)

  abbrev pub s_memory_object_data_return : Bool → ℕ → ℕ → ℕ → ℕ → Bool → Bool → M KernReturn
  s_memory_object_data_return is_pager control offset address length dirty kernel_copy =
      stub is_pager (data_return fuel control offset address length dirty kernel_copy)

  -- The handler of the notification has no result.
  abbrev pub do_dead_name : Bool → ℕ → M (Unit {0})
  do_dead_name is_pager port = do_if is_pager then dead_name fuel port else pure tt

  -- The calls as they reach a pager: the test on the port class has been passed.
  unfoldable pub serve : Request → M (Unit {0})
  serve (memory_object_init control name pagesize) =
      s_memory_object_init true control name pagesize >> pure tt
  serve (memory_object_terminate control name) =
      s_memory_object_terminate true control name >> pure tt
  serve (memory_object_data_request control offset length access) =
      s_memory_object_data_request true control offset length access >> pure tt
  serve (memory_object_data_unlock control offset length access) =
      s_memory_object_data_unlock true control offset length access >> pure tt
  serve (memory_object_lock_completed control offset length) =
      s_memory_object_lock_completed true control offset length >> pure tt
  serve (memory_object_data_return control offset address length dirty kernel_copy) =
      s_memory_object_data_return true control offset address length dirty kernel_copy >> pure tt
  serve (dead_name_notification port) = do_dead_name true port
  serve (call_flush wait) = pager_flush wait
  serve (call_flush_some offset size wait) = pager_flush_some offset size wait
  serve (call_sync wait) = pager_sync wait
  serve (call_sync_some offset size wait) = pager_sync_some offset size wait
  serve (call_return wait) = pager_return wait
  serve (call_return_some offset size wait) = pager_return_some offset size wait
  serve (call_change_attributes may_cache copy_strategy wait) =
      pager_change_attributes may_cache copy_strategy wait
  serve call_shutdown = pager_shutdown

  -- _pager_clean.
  unfoldable pub pager_clean : M (Unit {0})
  pager_clean = destroy fuel

-- The constructor of struct pager, at the port that ports_create_port gave it.
abbrev pub new_pager : ℕ → ℕ → Bool → ℕ → Bool → Pager
new_pager port page_size may_cache copy_strategy notify_on_evict = record {
  page_size = page_size;
  may_cache = may_cache;
  copy_strategy = copy_strategy;
  notify_on_evict = notify_on_evict;
  terminating = false;
  port_right = port;
  clients = [];
  writewait = [];
  nexterror = [];
  outstanding_locks = [];
  outstanding_change_requests = [];
  pagemap = [];
  log = [];
}

-- pager_create, by the answer of ports_create_port.
abbrev pub pager_create : Option ℕ → ℕ → Bool → ℕ → Bool → Option Pager
pager_create none page_size may_cache copy_strategy notify_on_evict = none
pager_create (some port) page_size may_cache copy_strategy notify_on_evict =
    some (new_pager port page_size may_cache copy_strategy notify_on_evict)
