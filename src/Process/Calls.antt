-- ===== src/Process/Calls.antt =====
-- What the calls that wait do to the system, and what follows at the next turn of the process.
use upanix_os.Base.{
  ℕ, ◌+◌, ◌%◌, ◌^◌, ◌≤◌, ◌<◌, ◌≡◌, refl, ap, ◌∙◌, inr, Bool, true, false, none, some, arith,
  if_cases, if◌then◌else◌,
}
use mathlib.Core.Option
use upanix_os.Base.Int.{pos}
use upanix_os.Process.State.{
  Status, is_negative, no_process_id, wait_sleep, wait_resource, StateInfo, Process, System,
  set_at_self,
}
use upanix_os.Process.Store.{
  lookup, modify, set_status, set_info, update_process, lookup-modify_self, get_cur_proc_id,
}
use upanix_os.Process.Schedule.{store_back, do_context_switch}
use upanix_os.Process.Wait.{
  runs, yields, do_poll_wait, is_resource_busy, set_resource_busy, yield, wait_with, sleep,
  wait_on_resource, end_lock, locked, lock,
}
use upanix_os.Process.Switch.{Runs, Waits, do_context_switch-IsReady}

abbrev pub noted : Status → (StateInfo → StateInfo) → ℕ → System → System
noted st f n s = record (set_status n st (set_info n f s)) {
  task_switch = false;
  context_switch = true;
}

pub wait_with-noted :
    (st : Status) (f : StateInfo → StateInfo) (n : ℕ) (s : System)
    → s.current_process_id ≡ pos n
    → wait_with st f s ≡ yields tt (noted st f n s)
unfolding wait_with yield
wait_with-noted st f n s c = rw c refl

pub lookup-noted :
    (st : Status) (f : StateInfo → StateInfo) (n : ℕ) (p : Process) (s : System)
    → lookup n s.process_map ≡ some p
    → lookup n (noted st f n s).process_map
      ≡ some (record p { state_info = f p.state_info; status = st })
unfolding set_status set_info update_process
lookup-noted st f n p s e =
    lookup-modify_self n (λ q. record q { status = st })
      (modify n (λ q. record q { state_info = f q.state_info }) s.process_map) (λ q. refl)
    ∙ ap (Option.map (λ (q : Process). record q { status = st })) (
        lookup-modify_self n (λ q. record q { state_info = f q.state_info }) s.process_map
          (λ q. refl)
        ∙ ap (Option.map (λ (q : Process). record q { state_info = f q.state_info })) e)

abbrev wake_time : ℕ → System → ℕ
wake_time ms s = (s.clock_count + ms) % 2 ^ 32

-- Sleep of the process that runs: it yields. While it stays as it was left then, its turns pass until the
-- clock has reached the time, and it runs at its turn from then on.
pub sleep_lem :
    (ms n : ℕ) (p : Process) (s : System)
    → s.kernel_mode ≡ false
    → s.task_switch ≡ true
    → s.current_process_id ≡ pos n
    → lookup n s.process_map ≡ some p
    → (t : System) × (sleep ms s ≡ yields tt t)
      × ((u : System)
          → lookup n u.process_map ≡ lookup n t.process_map
          → (u.clock_count < (s.clock_count + ms) % 2 ^ 32 → Waits n u)
            × ((s.clock_count + ms) % 2 ^ 32 ≤ u.clock_count → Runs n u))
unfolding sleep do_poll_wait
sleep_lem ms n p s k ts c e =
    let f = λ (i : StateInfo). record i { sleep_time = (s.clock_count + ms) % 2 ^ 32 } in
    (
      noted wait_sleep f n s,
      if_cases (λ x. x ≡ yields tt (noted wait_sleep f n s)) (do_poll_wait s) _
          (wait_with wait_sleep f s) (λ b. absurd (ground (arith, k, ts, b)))
          (λ b. wait_with-noted wait_sleep f n s c),
      λ u same.
          let eq = same ∙ lookup-noted wait_sleep f n p s e in
          let (go, stay) = do_context_switch-IsReady n _ u eq in
          ((λ lt slice. stay (λ le. absurd (omega arith)) slice), (λ le. go le)),
    )

wait_on_resource-noted :
    (n k : ℕ) (s : System)
    → s.kernel_mode ≡ false
    → s.current_process_id ≡ pos n
    → wait_on_resource k s
      ≡ yields tt (noted wait_resource (λ i. record i { wait_resource_id = k }) n s)
unfolding wait_on_resource get_cur_proc_id
wait_on_resource-noted n k s km c =
    let f = λ (i : StateInfo). record i { wait_resource_id = k } in
    let id : get_cur_proc_id s ≡ pos n =
      ap (λ b. if b then no_process_id else s.current_process_id) km ∙ c in
    if_cases (λ x. x ≡ yields tt (noted wait_resource f n s)) (is_negative (get_cur_proc_id s)) _
      (wait_with wait_resource f s) (λ b. absurd (ground (arith, b, ap is_negative id)))
      (λ b. wait_with-noted wait_resource f n s c)

lock-waits :
    (n k : ℕ) (s : System)
    → s.kernel_mode ≡ false
    → s.current_process_id ≡ pos n
    → s.resource_list k ≡ true
    → lock k true s
      ≡ yields none (
          noted wait_resource
            (λ i. record i { wait_resource_id = k })
            n
            (record s { task_switch = false }))
unfolding lock is_resource_busy locked
lock-waits n k s km c busy =
    rw busy (ap locked (wait_on_resource-noted n k (record s { task_switch = false }) km c))

-- A process that runs in user mode calls Lock for a resource that is busy: it yields. While it stays as it was
-- left then, it runs at its turn once the resource is free, and Lock answers true; but Lock does not mark the
-- resource: what the process goes on with finds it free, and any other Lock would take it.
pub lock-not_held :
    (n k : ℕ) (p : Process) (s : System)
    → s.kernel_mode ≡ false
    → s.current_process_id ≡ pos n
    → lookup n s.process_map ≡ some p
    → s.resource_list k ≡ true
    → (s' : System) × (lock k true s ≡ yields none s')
      × ((u : System)
          → lookup n u.process_map ≡ lookup n s'.process_map
          → u.resource_list k ≡ false
          → (t : System) × ((rest : Bool → System → System)
              → do_context_switch (λ v. rest (end_lock v).0 (end_lock v).1) n u
                ≡ store_back n (record (rest true t) { kernel_mode = true }))
            × (t.resource_list k ≡ false)
            × ((b : Bool)
                → (v : System) × (lock k b t ≡ runs (some true) v) × (v.resource_list k ≡ true)))
unfolding lock is_resource_busy set_resource_busy end_lock
lock-not_held n k p s km c e busy =
    let f = λ (i : StateInfo). record i { wait_resource_id = k } in
    let off = record s { task_switch = false } in
    (
      noted wait_resource f n off,
      lock-waits n k s km c busy,
      λ u same free.
          let eq = same ∙ lookup-noted wait_resource f n p off e in
          let (t, cs, kt, q, run) = (do_context_switch-IsReady n _ u eq).0 (inr free) in
          let still : t.resource_list k ≡ false = ap (λ g. g k) q.4 ∙ free in
          (
            record t { task_switch = true },
            (λ rest. run (λ v. rest (end_lock v).0 (end_lock v).1)),
            still,
            λ b. (
              record (set_resource_busy k true (record t { task_switch = false })) {
                task_switch = true;
              },
              rw still refl,
              set_at_self t.resource_list k true,
            ),
          ),
    )
