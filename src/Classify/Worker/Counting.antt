-- ===== src/Classify/Worker/Counting.antt =====
-- Every job of the pool is counted once, whatever the interleaving; internal/classify/async.go.
use flow_indicator.Base.{
  ℕ, suc, ◌+◌, ◌-◌, ◌≡◌, ◌≤◌, ◌<◌, refl, sym, ap, ◌∙◌, inl, inr, String, Bool, true, false, Option,
  none, some, List, [], ◌∷◌, ◌++◌, ltb, if◌then◌else◌, length, Bool-cases, length-append,
  length-push_bounded-le, arith,
}
use flow_indicator.Classify.{Input}
use flow_indicator.Classify.Worker.{
  Identity, Job, Completion, Status, completed, failed, timed_out, canceled, Operational, Worker,
  started, new_worker, fresh, new_job, enqueue, decline, submit, completion, count_status,
  record_completion, begin_close, settle, Step, submits, receives, records, sends, delivers,
  returns, abandons, closes, settles, Steps, stop, next,
}

-- The jobs whose outcome has been counted.
abbrev pub concluded : Operational → ℕ
concluded s = s.completed + s.failed + s.timed_out + s.canceled

pub record IsCounted (workers queue : ℕ) (w : Worker) : Type 0 where
  pub sized : (w.workers ≡ workers) × (w.queue ≡ queue)
  pub counted : w.stats.requested ≡ concluded w.stats + w.stats.pending
  pub going : w.ended ≡ false → w.stats.pending ≡ length w.jobs + length w.running
  pub over :
      w.ended ≡ true
      → (w.stats.pending ≡ 0) × (length w.running ≡ 0) × (w.closed ≡ true) × (w.live ≡ 0)
  pub queued : length w.jobs ≤ w.queue
  pub busy : length w.running + length w.sending ≤ w.live
  pub staffed : w.live ≤ w.workers
  pub unread : length w.results ≤ w.workers
  pub window : length w.latency ≤ 256

new_worker-IsCounted :
    (identity : Option Identity) (workers queue : ℕ) (w : Worker)
    → new_worker identity workers queue ≡ started w
    → IsCounted workers queue w
unfolding new_worker
new_worker-IsCounted none workers queue w e = cc
new_worker-IsCounted (some identity) workers queue w e = elim (Bool-cases (ltb workers 1)) [
  | inl few ↦ absurd (ground arith)
  | inr enough ↦ elim (Bool-cases (ltb queue 1)) [
    | inl short ↦ absurd (ground arith)
    | inr long ↦
        let is_fresh : fresh identity workers queue ≡ w = ground arith in
        rw (← is_fresh) (record {
          sized = (refl, refl);
          counted = omega arith;
          going = λ o. omega arith;
          over = λ o. cc;
          queued = omega arith;
          busy = omega arith;
          staffed = omega arith;
          unread = omega arith;
          window = omega arith;
        })
  ]
]

count_status-counts :
    (st : Status) (s : Operational)
    → ((count_status st s).requested ≡ s.requested)
      × ((count_status st s).pending ≡ s.pending)
      × (concluded (count_status st s) ≡ concluded s + 1)
count_status-counts completed s = (refl, refl, omega arith)
count_status-counts failed s = (refl, refl, omega arith)
count_status-counts timed_out s = (refl, refl, omega arith)
count_status-counts canceled s = (refl, refl, omega arith)

length_without :
    {A : Type 0} (before after : List A) (x : A)
    → (length (before ++ x ∷ after) ≡ length before + suc (length after))
      × (length (before ++ after) ≡ length before + length after)
length_without before after x = (length-append before (x ∷ after), length-append before after)

module _ {workers queue : ℕ} where
  enqueue-IsCounted :
      (job : Job) (w : Worker)
      → w.closed ≡ false
      → length w.jobs < w.queue
      → IsCounted workers queue w
      → IsCounted workers queue (enqueue job w)
  enqueue-IsCounted job w open_pool room v =
      let size = length-append w.jobs (job ∷ []) in
      record {
        sized = v.sized;
        counted = omega (arith, v.counted);
        going = λ o. omega (arith, v.going o, size);
        over = λ o.
            let shut = (v.over o).2 in absurd (let no : true ≡ false = sym shut ∙ open_pool in cc);
        queued = omega (arith, size);
        busy = v.busy;
        staffed = v.staffed;
        unread = v.unread;
        window = v.window;
      }

  submit-IsCounted :
      (stream_id : String) (epoch : ℕ) (inp : Input) (w : Worker)
      → IsCounted workers queue w
      → IsCounted workers queue (submit stream_id epoch inp w).0
  unfolding submit
  submit-IsCounted stream_id epoch inp w v = elim (Bool-cases w.closed) [
    | inl shut ↦ let e : (submit stream_id epoch inp w).0 ≡ w = ground arith in rw e v
    | inr runs ↦ elim (Bool-cases (ltb (length w.jobs) w.queue)) [
      | inl room ↦
          let job = new_job w.identity stream_id epoch inp in
          let e : (submit stream_id epoch inp w).0 ≡ enqueue job w = ground arith in
          rw e (enqueue-IsCounted job w runs (ground arith) v)
      | inr full ↦
          let e : (submit stream_id epoch inp w).0 ≡ decline w = ground arith in
          rw e (record {
            sized = v.sized;
            counted = v.counted;
            going = v.going;
            over = v.over;
            queued = v.queued;
            busy = v.busy;
            staffed = v.staffed;
            unread = v.unread;
            window = v.window;
          })
    ]
  ]

  records-IsCounted :
      (w : Worker) (before after : List Job) (job : Job) (c : Completion)
      → w.running ≡ before ++ job ∷ after
      → IsCounted workers queue w
      → IsCounted workers queue
          (record_completion c (record w { running = before ++ after; sending = c ∷ w.sending }))
  unfolding record_completion
  records-IsCounted w before after job c e v =
      let size : length w.running ≡ length before + suc (length after) =
        ap length e ∙ length-append before (job ∷ after) in
      let rest = length-append before after in
      let left : Bool = ltb 0 w.stats.pending in
      let s : Operational = record (w.stats) {
        pending = if ltb 0 w.stats.pending then w.stats.pending - 1 else w.stats.pending;
        last_ms = c.latency_ms;
      } in
      let (same_requested, same_pending, one_more) = count_status-counts c.status s in
      elim (Bool-cases w.ended) [
        | inl ended ↦ absurd (omega (arith, (v.over ended).1))
        | inr runs ↦
            let live_job = v.going runs in
            let less : s.pending + 1 ≡ w.stats.pending = ground arith in
            record {
              sized = v.sized;
              counted = omega (arith, v.counted, less);
              going = λ o. omega (arith, less);
              over = λ o. absurd (let no : true ≡ false = sym o ∙ runs in cc);
              queued = v.queued;
              busy = omega (arith, v.busy);
              staffed = v.staffed;
              unread = v.unread;
              window = length-push_bounded-le 256 w.latency c.latency_ms;
            }
      ]

  settle-IsCounted :
      (w : Worker)
      → w.closed ≡ true
      → w.live ≡ 0
      → IsCounted workers queue w
      → IsCounted workers queue (settle w)
  unfolding settle
  settle-IsCounted w shut idle v = elim (Bool-cases (ltb 0 w.stats.pending)) [
    | inl left ↦ rw left (record {
      sized = v.sized;
      counted = omega (arith, v.counted);
      going = λ o. cc;
      over = λ o. (refl, omega (arith, v.busy), shut, idle);
      queued = v.queued;
      busy = v.busy;
      staffed = v.staffed;
      unread = v.unread;
      window = v.window;
    })
    | inr nothing ↦ rw nothing (record {
      sized = v.sized;
      counted = v.counted;
      going = λ o. cc;
      over = λ o. (ground arith, omega (arith, v.busy), shut, idle);
      queued = v.queued;
      busy = v.busy;
      staffed = v.staffed;
      unread = v.unread;
      window = v.window;
    })
  ]

  -- The rest of a step keeps the counters and the jobs that are not concluded.
  moved-IsCounted :
      (w w' : Worker)
      → w'.stats ≡ w.stats
      → w'.latency ≡ w.latency
      → (w'.workers ≡ w.workers) × (w'.queue ≡ w.queue)
      → (w'.ended ≡ w.ended) × (w.closed ≡ true → w'.closed ≡ true)
      → length w'.jobs + length w'.running ≡ length w.jobs + length w.running
      → length w'.jobs ≤ length w.jobs
      → length w'.running + length w'.sending ≤ w'.live
      → w'.live ≤ w.live
      → length w'.results ≤ w.workers
      → IsCounted workers queue w
      → IsCounted workers queue w'
  moved-IsCounted w w' st la sz en jobs fewer busy fewer_live unread v =
      let pending : w'.stats.pending ≡ w.stats.pending = ap (λ s. s.pending) st in
      record {
        sized = (sz.0 ∙ v.sized.0, sz.1 ∙ v.sized.1);
        counted = rw st v.counted;
        going = λ o. let o' : w.ended ≡ false = sym en.0 ∙ o in omega (arith, v.going o', pending);
        over = λ o.
            let o' : w.ended ≡ true = sym en.0 ∙ o in
            let (none_left, idle, shut, dead) = v.over o' in
            (pending ∙ none_left, omega arith, en.1 shut, omega arith);
        queued = omega (arith, v.queued, sz.1);
        busy = busy;
        staffed = omega (arith, v.staffed, sz.0);
        unread = omega (arith, sz.0);
        window = rw la v.window;
      }

  step-IsCounted :
      (w w' : Worker) → Step w w' → IsCounted workers queue w → IsCounted workers queue w'
  unfolding begin_close
  step-IsCounted w w' (submits _ stream_id epoch inp) v = submit-IsCounted stream_id epoch inp w v
  step-IsCounted w w' (receives _ job jobs e free) v =
      let size : length w.jobs ≡ suc (length jobs) = ap length e in
      moved-IsCounted w (record w { jobs = jobs; running = job ∷ w.running }) refl refl (refl, refl)
        (refl, λ h. h) (omega arith) (omega arith) (omega arith) (omega arith) v.unread v
  step-IsCounted w w' (records _ before after job verdict ms e) v =
      records-IsCounted w before after job (completion job verdict ms) e v
  step-IsCounted w w' (sends _ before after c e room) v =
      let (size, rest) = length_without before after c in
      let was : length w.sending ≡ length (before ++ c ∷ after) = ap length e in
      moved-IsCounted w (record w { sending = before ++ after; results = w.results ++ c ∷ [] }) refl
        refl (refl, refl) (refl, λ h. h) refl (omega arith) (omega (arith, v.busy)) (omega arith)
        (omega (arith, length-append w.results (c ∷ []))) v
  step-IsCounted w w' (delivers _ c results e) v =
      let size : length w.results ≡ suc (length results) = ap length e in
      moved-IsCounted w (record w { results = results }) refl refl (refl, refl) (refl, λ h. h) refl
        (omega arith) v.busy (omega arith) (omega (arith, v.unread)) v
  step-IsCounted w w' (returns _ shut idle) v =
      moved-IsCounted w (record w { live = w.live - 1 }) refl refl (refl, refl) (refl, λ h. h) refl
        (omega arith) (omega arith) (omega arith) v.unread v
  step-IsCounted w w' (abandons _ before after c shut e) v =
      let (size, rest) = length_without before after c in
      let was : length w.sending ≡ length (before ++ c ∷ after) = ap length e in
      moved-IsCounted w (record w { sending = before ++ after; live = w.live - 1 }) refl refl
        (refl, refl) (refl, λ h. h) refl (omega arith) (omega (arith, v.busy)) (omega arith)
        v.unread v
  step-IsCounted w w' (closes _) v =
      moved-IsCounted w (begin_close w) refl refl (refl, refl) (refl, λ h. refl) refl (omega arith)
        v.busy (omega arith) v.unread v
  step-IsCounted w w' (settles _ shut idle) v = settle-IsCounted w shut idle v

  steps-IsCounted :
      (w w' : Worker) → Steps w w' → IsCounted workers queue w → IsCounted workers queue w'
  steps-IsCounted w w' (stop _) v = v
  steps-IsCounted w w' (next _ u _ s ss) v = steps-IsCounted u w' ss (step-IsCounted w u s v)

-- Whatever interleaving of submissions, workers, readers and `Close` follows the start of a pool,
-- every job that was accepted is counted as completed, failed, timed out, canceled or pending; at
-- most as many are pending as the queue holds and there are workers; none is pending once `Close`
-- has settled; and at most 256 latencies are kept.
pub pool_accounts :
    (identity : Option Identity) (workers queue : ℕ) (w w' : Worker)
    → new_worker identity workers queue ≡ started w
    → Steps w w'
    → (w'.stats.requested ≡ concluded w'.stats + w'.stats.pending)
      × (w'.stats.pending ≤ queue + workers)
      × (w'.ended ≡ true → w'.stats.pending ≡ 0)
      × (length w'.latency ≤ 256)
pool_accounts identity workers queue w w' e steps =
    let v = steps-IsCounted w w' steps (new_worker-IsCounted identity workers queue w e) in
    (
      v.counted,
      elim (Bool-cases w'.ended) [
        | inl ended ↦ omega (arith, (v.over ended).0)
        | inr runs ↦ omega (arith, v.going runs, v.queued, v.busy, v.staffed, v.sized.0, v.sized.1)
      ],
      λ ended. (v.over ended).0,
      v.window,
    )
