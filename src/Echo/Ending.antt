-- ===== src/Echo/Ending.antt =====
-- example/echo_server.cpp and example/ws_echo_server.cpp from the call of `uv_run` on: the thread that
-- waits for the Enter key, the signal, and the end of the loop. Log lines are left out.
use libuv_server.Prelude.{
  ℕ, suc, ◌+◌, ◌<◌, ◌≤◌, ◌≡◌, refl, Bool, true, false, List, [], ◌∷◌, if◌then◌else◌, ◌==◌, ltb,
  arith,
}

pub data Program : Type 0 where
  echo_server ws_echo_server : Program

-- A call that the program makes for its ending: `uv_async_send`, `uv_stop`, and `uv_close` of the
-- handles of the signal and of the wake-up.
pub data Call : Type 0 where
  async_send stop close_signal close_async : Call

-- The callback of the wake-up.
unfoldable pub on_async : List Call → List Call
on_async calls = stop ∷ calls

-- The callback of the signal, in echo_server.cpp. The number of SIGUSR1 is the platform's.
unfoldable pub on_signal : ℕ → ℕ → List Call → List Call
on_signal sigusr1 signum calls = if signum == sigusr1 then async_send ∷ calls else calls

-- The thread, once the key was pressed.
unfoldable pub after_input : List Call → List Call
after_input calls = async_send ∷ calls

-- What `main` does when `uv_run` returned, in echo_server.cpp and in ws_echo_server.cpp.
unfoldable pub clean_up_both : List Call → List Call
clean_up_both calls = close_async ∷ close_signal ∷ calls

unfoldable pub clean_up_async : List Call → List Call
clean_up_async calls = close_async ∷ calls

abbrev pub clean_up : Program → List Call → List Call
clean_up echo_server calls = clean_up_both calls
clean_up ws_echo_server calls = clean_up_async calls

-- How often the loop was woken and stopped, and how often the handle of the wake-up was closed.
abbrev pub wakes : List Call → ℕ
wakes [] = 0
wakes (async_send ∷ cs) = suc (wakes cs)
wakes (_ ∷ cs) = wakes cs

abbrev pub stops : List Call → ℕ
stops [] = 0
stops (stop ∷ cs) = suc (stops cs)
stops (_ ∷ cs) = stops cs

abbrev pub async_closes : List Call → ℕ
async_closes [] = 0
async_closes (close_async ∷ cs) = suc (async_closes cs)
async_closes (_ ∷ cs) = async_closes cs

-- How often `uv_async_send` was called for a handle that was closed before.
abbrev pub late_sends : List Call → ℕ
late_sends [] = 0
late_sends (async_send ∷ cs) = (if ltb 0 (async_closes cs) then 1 else 0) + late_sends cs
late_sends (_ ∷ cs) = late_sends cs

-- The calls so far, the newest first; whether `uv_run` did not return yet; whether the thread is at
-- its end; how often a SIGUSR1 came and the key was pressed.
pub record Ending : Type 0 where
  pub calls : List Call
  pub is_running : Bool
  pub input_read : Bool
  pub usr1_signals : ℕ
  pub inputs : ℕ

abbrev pub at_run : Ending
at_run = record { calls = []; is_running = true; input_read = false; usr1_signals = 0; inputs = 0 }

-- Cleaning up closes the handle of the wake-up, and neither wakes nor stops the loop.
wakes-clean_up :
    (program : Program) (calls : List Call) → wakes (clean_up program calls) ≡ wakes calls
unfolding clean_up_both clean_up_async
wakes-clean_up echo_server calls = refl
wakes-clean_up ws_echo_server calls = refl

stops-clean_up :
    (program : Program) (calls : List Call) → stops (clean_up program calls) ≡ stops calls
unfolding clean_up_both clean_up_async
stops-clean_up echo_server calls = refl
stops-clean_up ws_echo_server calls = refl

late_sends-clean_up :
    (program : Program) (calls : List Call) → late_sends (clean_up program calls) ≡ late_sends calls
unfolding clean_up_both clean_up_async
late_sends-clean_up echo_server calls = refl
late_sends-clean_up ws_echo_server calls = refl

async_closes-clean_up :
    (program : Program) (calls : List Call)
    → async_closes (clean_up program calls) ≡ suc (async_closes calls)
unfolding clean_up_both clean_up_async
async_closes-clean_up echo_server calls = refl
async_closes-clean_up ws_echo_server calls = refl

module _ (program : Program) (sigusr1 : ℕ) where
  -- The loop calls the wake-up back after an `uv_async_send` only, and returns after an `uv_stop` only:
  -- the handles keep it alive. The thread runs beside it, and may come to its send at any time.
  pub data Step : Ending → Ending → Type 0 where
    signals :
        (s : Ending) (signum : ℕ)
        → program ≡ echo_server
        → s.is_running ≡ true
        → Step s (record s {
          calls = on_signal sigusr1 signum s.calls;
          usr1_signals = (if signum == sigusr1 then 1 else 0) + s.usr1_signals;
        })
    reads_input :
        (s : Ending)
        → s.input_read ≡ false
        → Step s
            (record s { calls = after_input s.calls; input_read = true; inputs = suc s.inputs })
    wakes_up :
        (s : Ending)
        → s.is_running ≡ true
        → 0 < wakes s.calls
        → Step s (record s { calls = on_async s.calls })
    returns :
        (s : Ending)
        → s.is_running ≡ true
        → 0 < stops s.calls
        → Step s (record s { calls = clean_up program s.calls; is_running = false })

  pub data Reach : Ending → Type 0 where
    begins : Reach at_run
    continues : {s t : Ending} → Reach s → Step s t → Reach t

  record IsTraced (s : Ending) : Type 0 where
    woken : 0 < wakes s.calls → 0 < s.usr1_signals + s.inputs
    asked : 0 < s.usr1_signals + s.inputs → 0 < wakes s.calls
    stopped : 0 < stops s.calls → 0 < wakes s.calls
    not_closed : s.is_running ≡ true → async_closes s.calls ≡ 0
    ended : s.is_running ≡ false → 0 < stops s.calls
    closed_after : s.is_running ≡ false → async_closes s.calls ≡ 1
    unread : s.input_read ≡ false → s.inputs ≡ 0
    in_time : s.input_read ≡ false → late_sends s.calls ≡ 0
    in_run : s.is_running ≡ true → late_sends s.calls ≡ 0
    late : 0 < late_sends s.calls → 0 < s.usr1_signals
    once : late_sends s.calls ≤ 1
    watched : 0 < s.usr1_signals → program ≡ echo_server

  Step-IsTraced : {s t : Ending} → Step s t → IsTraced s → IsTraced t
  unfolding on_signal after_input on_async
  Step-IsTraced (signals s signum p h) v = ground (arith, v, p, h)
  Step-IsTraced (reads_input s h) v = ground (arith, v, h)
  Step-IsTraced (wakes_up s h w) v = ground (arith, v, h, w)
  Step-IsTraced (returns s h w) v = ground (
    arith,
    v,
    h,
    w,
    wakes-clean_up program s.calls,
    stops-clean_up program s.calls,
    late_sends-clean_up program s.calls,
    async_closes-clean_up program s.calls,
  )

  Reach-IsTraced : {s : Ending} → Reach s → IsTraced s
  Reach-IsTraced begins = ground arith
  Reach-IsTraced (continues r st) = Step-IsTraced st (Reach-IsTraced r)

-- Over any order of the signals, the key, the callbacks of the loop and the end of `uv_run`: the loop
-- is woken exactly if a SIGUSR1 came or the key was pressed, and it ends only then. `uv_async_send` is
-- called once at most for the closed handle, and if so, then in echo_server.cpp, after a SIGUSR1 and
-- by the thread; where the loop has ended before the key was pressed, its press is such a call.
pub Reach-late_sends :
    (program : Program) (sigusr1 : ℕ) {s : Ending}
    → Reach program sigusr1 s
    → (0 < wakes s.calls → 0 < s.usr1_signals + s.inputs)
      × (0 < s.usr1_signals + s.inputs → 0 < wakes s.calls)
      × (s.is_running ≡ false → 0 < s.usr1_signals + s.inputs)
      × (late_sends s.calls ≤ 1)
      × (0 < late_sends s.calls
          → (program ≡ echo_server) × (0 < s.usr1_signals) × (s.input_read ≡ true))
      × (s.is_running ≡ false → s.input_read ≡ false → late_sends (after_input s.calls) ≡ 1)
unfolding after_input
Reach-late_sends program sigusr1 {s} r =
    let v = Reach-IsTraced program sigusr1 r in
    (
      v.woken,
      v.asked,
      λ h. v.woken (v.stopped (v.ended h)),
      v.once,
      λ h. (v.watched (v.late h), v.late h, ground (arith, v, h)),
      λ h unread. ground (arith, v, h, unread),
    )
