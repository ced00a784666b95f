-- ===== src/Bus/Dispatch.antt =====
-- `dispatch` and `dispatchOne`, without the logs. Callbacks post, but do not subscribe.
use flowio_waveshare_qwiic.Prelude.{
  ℕ, zero, suc, false, Option, none, some, List, [], ◌∷◌, ◌++◌, ◌&&◌, ◌==◌, ◌!=◌, ltb, leb,
  if◌then◌else◌, sub32,
}
use flowio_waveshare_qwiic.Bus.Types.{Queued, Subscriber, Stats, QueueOps, Bus}
use flowio_waveshare_qwiic.Bus.Posting.{post}

-- The part of `dispatch` that starts a new window every five seconds.
unfoldable pub roll_window : ℕ → Stats → Stats
roll_window now s =
    let start : ℕ = if s.win_start_ms == 0 then now else s.win_start_ms in
    if leb 5000 (sub32 now start)
    then record s {
      win_start_ms = now;
      win_drop_count = 0;
      win_current_drop_burst = 0;
      win_max_drop_burst = 0;
    }
    else record s { win_start_ms = start }

-- A call of a callback, with the event that it is given: no payload where `len` is 0.
pub record Call : Type 0 where
  pub cb : ℕ
  pub user : ℕ
  pub id : ℕ
  pub payload : Option (List ℕ)
  pub len : ℕ

-- A post that a callback makes.
pub record Posted : Type 0 where
  pub id : ℕ
  pub payload : Option (List ℕ)
  pub len : ℕ

-- The calls of `dispatchOne`: the subscribers of the event, in the order of their subscription.
unfoldable pub dispatch_one : Queued → List Subscriber → List Call
dispatch_one e [] = []
dispatch_one e (s ∷ ss) =
    let rest = dispatch_one e ss in
    if s.id == e.id && s.cb != 0
    then record {
      cb = s.cb;
      user = s.user;
      id = e.id;
      payload = if ltb 0 e.len then e.bytes else none;
      len = e.len;
    }
      ∷ rest
    else rest

module _ (o : QueueOps) (react : Call → List Posted) where
  open o use {receive}

  -- The posts of one callback.
  unfoldable pub post_each : List Posted → Bus o → Bus o
  post_each [] b = b
  post_each (p ∷ ps) b = post_each ps (post o false p.id p.payload p.len b).0

  -- The callbacks, each with the posts it makes.
  unfoldable pub run_calls : List Call → Bus o → Bus o
  run_calls [] b = b
  run_calls (k ∷ ks) b = run_calls ks (post_each (react k) b)

  -- The loop of `dispatch`, with the events it takes and the calls it makes.
  unfoldable pub dispatch_loop : ℕ → Bus o → Bus o × List Queued × List Call
  dispatch_loop zero b = (b, [], [])
  dispatch_loop (suc n) b = elim b.queue [
    | none ↦ (b, [], [])
    | some q ↦
        let (q1, next) = receive q in
        let b1 : Bus o = record b { queue = some q1 } in
        elim next [
          | none ↦ (b1, [], [])
          | some e ↦
              let calls = dispatch_one e b.subs in
              let (b2, taken, more) = dispatch_loop n (run_calls calls b1) in
              (b2, e ∷ taken, calls ++ more)
        ]
  ]

  -- `dispatch`
  unfoldable pub dispatch : ℕ → ℕ → Bus o → Bus o × List Queued × List Call
  dispatch now max_events b = elim b.queue [
    | none ↦ (b, [], [])
    | some q ↦ dispatch_loop max_events (record b { stats = roll_window now b.stats })
  ]
