-- ===== src/Bus/Posting.antt =====
-- `subscribe`, `post` and `postFromISR`.
use flowio_waveshare_qwiic.Prelude.{
  ℕ, Bool, true, false, Option, none, some, List, [], ◌∷◌, ◌++◌, ◌+◌, ◌%◌, ◌==◌, ltb, leb, length,
  set, if◌then◌else◌, u8, u32,
}
use flowio_waveshare_qwiic.Bus.Types.{Queued, RejectLog, Stats, QueueOps, Bus}

abbrev pub max_payload_size : ℕ
max_payload_size = 48

-- `recordSubscribeReject_`
unfoldable pub record_subscribe_reject : ℕ → ℕ → ℕ → ℕ → ℕ → RejectLog → RejectLog
record_subscribe_reject now id cb user reason l = record l {
  total = u32 (l.total + 1);
  null_cb_total = if reason == 1 then u32 (l.null_cb_total + 1) else l.null_cb_total;
  capacity_total = if reason == 2 then u32 (l.capacity_total + 1) else l.capacity_total;
  ring = set l.ring l.write_idx (record {
    seq = u32 (l.total + 1);
    ts_ms = now;
    event_id = id;
    cb = cb;
    user = user;
    reason = reason;
  });
  write_idx = (l.write_idx + 1) % 8;
}

-- The counters after a post that is dropped.
unfoldable pub count_drop : Bool → Bool → Bool → Stats → Stats
count_drop from_isr too_large no_queue s =
    let burst : ℕ = u32 (s.win_current_drop_burst + 1) in
    record s {
      drop_total = u32 (s.drop_total + 1);
      drop_from_isr_total =
          if from_isr then u32 (s.drop_from_isr_total + 1) else s.drop_from_isr_total;
      drop_too_large_total =
          if too_large then u32 (s.drop_too_large_total + 1) else s.drop_too_large_total;
      drop_no_queue_total =
          if no_queue then u32 (s.drop_no_queue_total + 1) else s.drop_no_queue_total;
      win_drop_count = u32 (s.win_drop_count + 1);
      win_current_drop_burst = burst;
      win_max_drop_burst = if ltb s.win_max_drop_burst burst then burst else s.win_max_drop_burst;
    }

unfoldable pub count_ok : Stats → Stats
count_ok s = record s { ok_total = u32 (s.ok_total + 1); win_current_drop_burst = 0 }

-- The event that is queued; without a payload the array is not written.
unfoldable pub queued_event : ℕ → Option (List ℕ) → ℕ → Queued
queued_event id payload len = record {
  id = id;
  len = u8 len;
  bytes = if ltb 0 len then payload else none;
}

module _ (o : QueueOps) where
  open o use {send}

  -- `subscribe`; a callback of 0 is null.
  unfoldable pub subscribe : ℕ → ℕ → ℕ → ℕ → Bus o → Bus o × Bool
  subscribe now id cb user b =
      if cb == 0
      then (record b { rejects = record_subscribe_reject now id cb user 1 b.rejects }, false)
      else if leb b.max_subscribers (length b.subs)
      then (record b { rejects = record_subscribe_reject now id cb user 2 b.rejects }, false)
      else (record b { subs = b.subs ++ (record { id = id; cb = cb; user = user } ∷ []) }, true)

  -- `post`, and `postFromISR` where `from_isr` is true.
  unfoldable pub post : Bool → ℕ → Option (List ℕ) → ℕ → Bus o → Bus o × Bool
  post from_isr id payload len b = elim b.queue [
    | none ↦ (record b { stats = count_drop from_isr false true b.stats }, false)
    | some q ↦
        if ltb max_payload_size len
        then (record b { stats = count_drop from_isr true false b.stats }, false)
        else (let (q1, sent) = send q (queued_event id payload len) in
            (
              record b {
                queue = some q1;
                stats = if sent then count_ok b.stats else count_drop from_isr false false b.stats;
              },
              sent,
            ))
  ]
