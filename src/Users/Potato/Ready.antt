-- ===== src/Users/Potato/Ready.antt =====
-- When the flags of tidyPotatoInfo say that an action is ready.
use potat_api.Base.{ℕ, ◌+◌, ◌≡◌, refl, none, some, ltb, arith}
use potat_api.Base.Int.{pos, sub_ℕ}
use potat_api.Users.Potato.{
  PotatoData, PotatoInfo, Action, potato_action, cdr_action, trample_action, steal_action,
  eat_action, quiz_action, gtb, is_ready, cdr_ready, tidy, tidy_potato_info,
}

gtb-sub_ℕ : (a b c : ℕ) → gtb (sub_ℕ a b) (pos c) ≡ ltb (b + c) a
gtb-sub_ℕ a b c = ground arith

-- For times after the epoch: five actions are ready from the millisecond after the time that Redis
-- has, and the cooldown reset from the millisecond after half an hour past it; where there is no
-- data there is no info.
pub tidy_potato_info-ready :
    (d : PotatoData) (last now : Action → ℕ)
    → (i : PotatoInfo) × (tidy_potato_info (some d) (λ a. pos (last a)) (λ a. pos (now a)) ≡ some i)
      × (tidy_potato_info none (λ a. pos (last a)) (λ a. pos (now a)) ≡ none)
      × (i.potato.ready ≡ ltb (last potato_action) (now potato_action))
      × (i.trample.ready ≡ ltb (last trample_action) (now trample_action))
      × (i.steal.ready ≡ ltb (last steal_action) (now steal_action))
      × (i.eat.ready ≡ ltb (last eat_action) (now eat_action))
      × (i.quiz.ready ≡ ltb (last quiz_action) (now quiz_action))
      × (i.cdr.ready ≡ ltb (last cdr_action + 1800000) (now cdr_action))
unfolding tidy_potato_info tidy is_ready cdr_ready
tidy_potato_info-ready d last now = (
  _,
  refl,
  refl,
  refl,
  refl,
  refl,
  refl,
  refl,
  ground (arith, gtb-sub_ℕ (now cdr_action) (last cdr_action) 1800000),
)
