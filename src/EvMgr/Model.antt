-- ===== src/EvMgr/Model.antt =====
-- The records of src/sandbox/ev-mgr.c, and what its functions do to the outside.
use rp_lib_utils.Common.{ℕ, ◌+◌, ◌-◌, ◌%◌, ◌^◌, Bool, List, ◌∷◌, Option}

-- An `ev_fd`; the identity stands for its address, `fd` is `none` if it is negative.
pub record EvFd : Type 0 where
  pub id : ℕ
  pub handler : ℕ
  pub fd : Option ℕ
  pub events : ℕ
  pub refcount : ℕ
  pub is_active : Bool
  pub is_set : Bool
  pub has_changed : Bool
  pub is_deleted : Bool
  pub auto_close : Bool
  pub auto_unref : Bool

pub record EvTimer : Type 0 where
  pub id : ℕ
  pub handler : ℕ
  pub next_ms : ℕ
  pub accuracy_ms : ℕ
  pub period_ms : ℕ
  pub decount : ℕ
  pub refcount : ℕ
  pub is_active : Bool
  pub is_deleted : Bool
  pub auto_unref : Bool

pub record EvPrepare : Type 0 where
  pub id : ℕ
  pub handler : ℕ
  pub refcount : ℕ

pub data State : Type 0 where
  idle preparing ready waiting pending dispatching : State

-- What an event of `epoll_wait` points to: NULL, the manager or an `ev_fd`.
pub data Target : Type 0 where
  the_timer : Target
  the_manager : Target
  the_fd : ℕ → Target

-- What is done outside: calls of `epoll_ctl`, `close` and `timerfd_settime`, of the handlers, and what
-- is written to and read from the eventfd.
pub data Action : Type 0 where
  ctl_add ctl_mod : Option ℕ → ℕ → Action
  ctl_del : Option ℕ → Action
  closes : ℕ → Action
  sets_timer : ℕ → Action
  calls_fd : ℕ → Option ℕ → ℕ → Action
  calls_timer : ℕ → ℕ → Action
  calls_prepare : ℕ → Action
  wakes reads_wakeup : Action

-- An `ev_mgr`, with the actions so far, the latest first.
pub record Mgr : Type 0 where
  pub holder : ℕ
  pub efds : List EvFd
  pub timers : List EvTimer
  pub preparers : List EvPrepare
  pub event : Target × ℕ
  pub timerfd : Option ℕ
  pub last_timer : ℕ
  pub refcount : ℕ
  pub state : State
  pub efds_changed : Bool
  pub efds_cleanup : Bool
  pub timers_cleanup : Bool
  pub preparers_cleanup : Bool
  pub actions : List Action

-- The system: which calls succeed.
pub record Sys : Type 0 where
  pub malloc : Bool
  pub epoll_ctl : Action → Bool
  pub timerfd_create : Option ℕ
  pub timerfd_settime : Bool

abbrev pub does : Action → Mgr → Mgr
does action m = record m { actions = action ∷ m.actions }

-- The counters of references have 16 bits.
abbrev pub one_more : ℕ → ℕ
one_more refcount = (refcount + 1) % 2 ^ 16

abbrev pub one_less : ℕ → ℕ
one_less refcount = (refcount + 2 ^ 16 - 1) % 2 ^ 16

-- `TIME_MS_MAX`
abbrev pub time_ms_max : ℕ
time_ms_max = 2 ^ 64 - 1
