-- ===== src/Programs/Serving.antt =====
-- The server at work, of cmd/server/main.go with Run of internal/server/server.go and of
-- internal/grpc/grpc.go: the two servers, their loops that save the storage, the saves that handlers
-- start, and the end of the process, as steps in any order. The storage is the one in memory.
pub mod SavedFile
pub mod Restarted
pub mod Runs
pub mod Losses
pub mod Unsaved
use go_metrics_harvester.Base.{
  ℕ, zero, suc, ◌+◌, ◌-◌, ◌<◌, ◌≡◌, ◌≢◌, ◌⊎◌, String, Bool, true, false, ◌||◌, Option, none, some,
  List, ltb, if◌then◌else◌, Error, Outcome, ok, err, panic,
}
use go_metrics_harvester.Metric.{Metric}
use go_metrics_harvester.Metric.Json.{Json}
use go_metrics_harvester.Memory
use go_metrics_harvester.Memory.{Storage}
use go_metrics_harvester.Service.{Disk}

pub data Which : Type 0 where
  http grpc : Which

-- Where a loop that saves stands: at its select, between the open of the file and the write, or
-- returned. A loop that Run did not start counts as returned.
pub data Loop : Type 0 where
  selecting opened returned : Loop

-- `running` until the signal; then the calls of GracefulStop and of the HTTP server's Shutdown, and
-- the return of the latter. `fatal` is log.Fatal behind a Shutdown that fails, `exited` the return of
-- main.
pub data Phase : Type 0 where
  running stopping_grpc stopping_http stopped fatal exited : Phase

-- `requests` and `calls` count what the two servers have not yet answered, `spawned` the goroutines that handlers have
-- started for a save, `saving` those of them that have opened the file; `cancelled` is the context of the errgroup, `listening` the
-- goroutines of the two listeners. `torn` says whether a write of the file has ever failed.
pub record Process (F : Type 0) (disk : Disk) : Type 0 where
  pub storage : Storage F
  pub disk_state : disk.State
  pub loop : Which → Loop
  pub listening : Which → Bool
  pub spawned : ℕ
  pub saving : ℕ
  pub requests : ℕ
  pub calls : ℕ
  pub cancelled : Bool
  pub phase : Phase
  pub torn : Bool

module _ {A : Type 0} where
  abbrev pub put_at : Which → A → (Which → A) → Which → A
  put_at http a f http = a
  put_at http a f grpc = f grpc
  put_at grpc a f http = f http
  put_at grpc a f grpc = a

abbrev pub is_failure : Outcome (Unit {0}) → Bool
is_failure (ok _) = false
is_failure (err _) = true
is_failure panic = true

-- The loops run with a store interval above 0, as a signed number.
abbrev pub first_loop : ℕ → Loop
first_loop store_interval =
    if ltb 0 store_interval
    then if ltb store_interval 0x8000_0000_0000_0000 then selecting else returned
    else returned

-- The process is not over.
abbrev pub IsAlive : Phase → Type 0
IsAlive fatal = ⊥
IsAlive exited = ⊥
IsAlive _ = Unit {0}

-- The HTTP server takes connections until its Shutdown.
abbrev pub IsOpen : Phase → Type 0
IsOpen running = Unit {0}
IsOpen stopping_grpc = Unit {0}
IsOpen _ = ⊥

module _ {F : Type 0} {disk : Disk} where
  abbrev pub start : ℕ → Storage F → disk.State → Process F disk
  start store_interval storage d = record {
    storage = storage;
    disk_state = d;
    loop = λ _. first_loop store_interval;
    listening = λ _. true;
    spawned = 0;
    saving = 0;
    requests = 0;
    calls = 0;
    cancelled = false;
    phase = running;
    torn = false;
  }

  abbrev pub open_file : String → Process F disk → Process F disk
  open_file path s = record s { disk_state = (disk.open_file path s.disk_state).1 }

module _ {F : Type 0} (visit : List (Metric F) → List (Metric F)) (json : Json F) (disk : Disk)
    (path : String) where
  -- Persist into the file that SaveToFile has opened.
  abbrev pub written : Storage F → disk.State → Outcome (Unit {0}) × disk.State
  written storage d = Memory.persist visit json (disk.write path) storage d

  abbrev pub write : Process F disk → Process F disk
  write s = record s {
    disk_state = (written s.storage s.disk_state).1;
    torn = s.torn || is_failure (written s.storage s.disk_state).0;
  }

module _ {F : Type 0} (visit : List (Metric F) → List (Metric F)) (json : Json F) (disk : Disk)
    (path : String) (store_interval : ℕ) where
  pub data Step (s : Process F disk) : Process F disk → Type 0 where
    -- a request of either server that changes the storage
    update :
        (m : List (Metric F))
        → IsAlive s.phase
        → (0 < s.requests) ⊎ (0 < s.calls)
        → Step s (record s { storage = (Memory.update m s.storage).1 })
    set :
        (m : Metric F)
        → IsAlive s.phase
        → 0 < s.requests
        → Step s (record s { storage = (Memory.set m s.storage).1 })
    accept_request :
        IsOpen s.phase → s.listening http ≡ true → Step s (record s { requests = s.requests + 1 })
    answer_request :
        IsAlive s.phase → 0 < s.requests → Step s (record s { requests = s.requests - 1 })
    -- GracefulStop lets no call begin any more
    accept_call :
        s.phase ≡ running → s.listening grpc ≡ true → Step s (record s { calls = s.calls + 1 })
    answer_call : IsAlive s.phase → 0 < s.calls → Step s (record s { calls = s.calls - 1 })
    -- the store interval has passed: SaveToFile opens the file, or logs that it cannot
    tick :
        (w : Which)
        → IsAlive s.phase
        → s.loop w ≡ selecting
        → (disk.open_file path s.disk_state).0 ≡ ok tt
        → Step s (record (open_file path s) { loop = put_at w opened s.loop })
    tick_fails :
        (w : Which)
        → IsAlive s.phase
        → s.loop w ≡ selecting
        → (disk.open_file path s.disk_state).0 ≢ ok tt
        → Step s (open_file path s)
    save :
        (w : Which)
        → IsAlive s.phase
        → s.loop w ≡ opened
        → Step s (record (write visit json disk path s) { loop = put_at w selecting s.loop })
    -- <-ctx.Done() in a loop
    stop_loop :
        (w : Which)
        → IsAlive s.phase
        → s.cancelled ≡ true
        → s.loop w ≡ selecting
        → Step s (record s { loop = put_at w returned s.loop })
    -- go s.service.SaveToFile of a JSON update, whose handler need not be at work any more when the
    -- goroutine opens the file
    spawn :
        store_interval ≡ 0
        → IsAlive s.phase
        → 0 < s.requests
        → Step s (record s { spawned = s.spawned + 1 })
    open_by_handler :
        IsAlive s.phase
        → 0 < s.spawned
        → (disk.open_file path s.disk_state).0 ≡ ok tt
        → Step s (record (open_file path s) { spawned = s.spawned - 1; saving = s.saving + 1 })
    fail_by_handler :
        IsAlive s.phase
        → 0 < s.spawned
        → (disk.open_file path s.disk_state).0 ≢ ok tt
        → Step s (record (open_file path s) { spawned = s.spawned - 1 })
    save_by_handler :
        IsAlive s.phase
        → 0 < s.saving
        → Step s (record (write visit json disk path s) { saving = s.saving - 1 })
    -- a listener that fails ends its goroutine, and the errgroup cancels its context
    fail_listener :
        (w : Which)
        → IsAlive s.phase
        → s.listening w ≡ true
        → Step s (record s { listening = put_at w false s.listening; cancelled = true })
    -- done(), and the call of GracefulStop
    signal : s.phase ≡ running → Step s (record s { cancelled = true; phase = stopping_grpc })
    -- GracefulStop returns, which ends Serve, and Shutdown ends ListenAndServe
    stop_grpc :
        s.phase ≡ stopping_grpc
        → s.calls ≡ 0
        → Step s (record s { listening = λ _. false; phase = stopping_http })
    stop_http : s.phase ≡ stopping_http → s.requests ≡ 0 → Step s (record s { phase = stopped })
    -- the context of Shutdown comes from the one that is cancelled already
    shutdown_fails : s.phase ≡ stopping_http → 0 < s.requests → Step s (record s { phase = fatal })
    -- runner.Wait() returns once every goroutine of the group has; the one behind the signal is not
    -- of the group, so main does not wait for Shutdown
    exit :
        IsAlive s.phase
        → ((w : Which) → s.loop w ≡ returned)
        → ((w : Which) → s.listening w ≡ false)
        → Step s (record s { phase = exited })

  pub data Reach (s : Process F disk) : Process F disk → Type 0 where
    here : Reach s s
    next : {t u : Process F disk} → Reach s t → Step t u → Reach s u
