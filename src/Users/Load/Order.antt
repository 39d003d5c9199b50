-- ===== src/Users/Load/Order.antt =====
-- The nine goroutines of loadUser write different variables, so their order does not matter.
use potat_api.Base.{
  ◌≡◌, refl, true, Option, none, List, [], ◌∷◌, Reply, value, absent, fault, if◌then◌else◌, arith,
}
use potat_api.Base.Int.{ℤ, pos}
use potat_api.Users.Potato.{Action, tidy_potato_info}
use potat_api.Users.Load.{
  Answers, Loaded, Task, fetch_user, fetch_channel, fetch_potatoes, fetch_last, or_old, or_old_time,
  nothing, run_task, run_tasks, user_info, load_user, has_task,
}

or_old-or_old : {A : Type 0} (o : Option A) (r : Reply A) → or_old (or_old o r) r ≡ or_old o r
unfolding or_old
or_old-or_old o (value x) = refl
or_old-or_old o absent = refl
or_old-or_old o fault = refl

or_old_time-or_old_time : (t : ℤ) (r : Reply ℤ) → or_old_time (or_old_time t r) r ≡ or_old_time t r
unfolding or_old_time
or_old_time-or_old_time t (value x) = refl
or_old_time-or_old_time t absent = refl
or_old_time-or_old_time t fault = refl

module _ {User Channel : Type 0} (a : Answers User Channel) where
  run_tasks-user :
      (ts : List Task) (l : Loaded User Channel)
      → (run_tasks a ts l).user ≡ (if has_task fetch_user ts then or_old l.user a.user else l.user)
  unfolding run_tasks
  run_tasks-user [] l = refl
  run_tasks-user (fetch_user ∷ ts) l =
      ground (arith, run_tasks-user ts (run_task a fetch_user l), or_old-or_old l.user a.user)
  run_tasks-user (fetch_channel ∷ ts) l = run_tasks-user ts (run_task a fetch_channel l)
  run_tasks-user (fetch_potatoes ∷ ts) l = run_tasks-user ts (run_task a fetch_potatoes l)
  run_tasks-user (fetch_last c ∷ ts) l = run_tasks-user ts (run_task a (fetch_last c) l)

  run_tasks-channel :
      (ts : List Task) (l : Loaded User Channel)
      → (run_tasks a ts l).channel
        ≡ (if has_task fetch_channel ts then or_old l.channel a.channel else l.channel)
  unfolding run_tasks
  run_tasks-channel [] l = refl
  run_tasks-channel (fetch_user ∷ ts) l = run_tasks-channel ts (run_task a fetch_user l)
  run_tasks-channel (fetch_channel ∷ ts) l =
      ground (
        arith,
        run_tasks-channel ts (run_task a fetch_channel l),
        or_old-or_old l.channel a.channel,
      )
  run_tasks-channel (fetch_potatoes ∷ ts) l = run_tasks-channel ts (run_task a fetch_potatoes l)
  run_tasks-channel (fetch_last c ∷ ts) l = run_tasks-channel ts (run_task a (fetch_last c) l)

  run_tasks-potatoes :
      (ts : List Task) (l : Loaded User Channel)
      → (run_tasks a ts l).potatoes
        ≡ (if has_task fetch_potatoes ts then or_old l.potatoes a.potatoes else l.potatoes)
  unfolding run_tasks
  run_tasks-potatoes [] l = refl
  run_tasks-potatoes (fetch_user ∷ ts) l = run_tasks-potatoes ts (run_task a fetch_user l)
  run_tasks-potatoes (fetch_channel ∷ ts) l = run_tasks-potatoes ts (run_task a fetch_channel l)
  run_tasks-potatoes (fetch_potatoes ∷ ts) l = ground (
    arith,
    run_tasks-potatoes ts (run_task a fetch_potatoes l),
    or_old-or_old l.potatoes a.potatoes,
  )
  run_tasks-potatoes (fetch_last c ∷ ts) l = run_tasks-potatoes ts (run_task a (fetch_last c) l)

  run_tasks-last :
      (c : Action) (ts : List Task) (l : Loaded User Channel)
      → (run_tasks a ts l).last c
        ≡ (if has_task (fetch_last c) ts then or_old_time (l.last c) (a.last c) else l.last c)
  unfolding run_tasks
  run_tasks-last c [] l = refl
  run_tasks-last c (fetch_user ∷ ts) l = run_tasks-last c ts (run_task a fetch_user l)
  run_tasks-last c (fetch_channel ∷ ts) l = run_tasks-last c ts (run_task a fetch_channel l)
  run_tasks-last c (fetch_potatoes ∷ ts) l = run_tasks-last c ts (run_task a fetch_potatoes l)
  run_tasks-last c (fetch_last d ∷ ts) l = ground (
    arith,
    run_tasks-last c ts (run_task a (fetch_last d) l),
    or_old_time-or_old_time (l.last c) (a.last c),
  )

  -- In whatever order the goroutines write, once each of them has, loadUser gives what the nine
  -- queries answered: a failed query reads as no row, and a failed or missing time as 0.
  pub load_user-order :
      (order : List Task) (now : Action → ℤ)
      → ((t : Task) → has_task t order ≡ true)
      → load_user true true a order now ≡ record {
        user = or_old none a.user;
        channel = or_old none a.channel;
        potatoes =
            tidy_potato_info (or_old none a.potatoes) (λ c. or_old_time (pos 0) (a.last c)) now;
      }
  unfolding load_user user_info
  load_user-order order now done =
      let user' = run_tasks-user order nothing in
      let channel' = run_tasks-channel order nothing in
      let potatoes' = run_tasks-potatoes order nothing in
      let last' : (run_tasks a order nothing).last ≡ (λ c. or_old_time (pos 0) (a.last c)) =
        λ i c. (rw (done (fetch_last c)) at (run_tasks-last c order nothing)) i in
      rw
        (
          rw (done fetch_user) at user',
          rw (done fetch_channel) at channel',
          rw (done fetch_potatoes) at potatoes',
          last',
        )
        refl
