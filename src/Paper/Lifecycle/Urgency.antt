-- ===== src/Paper/Lifecycle/Urgency.antt =====
-- The actions in the order of their urgency: how the conditions of a position call for them.
use hedge_desk.Prelude.{
  ℕ, ◌≤◌, ◌≡◌, refl, subst₂, String, Bool, true, false, not, ◌||◌, ◌&&◌, arith, str_eq, value_error,
  ok, ok-injective, if◌then◌else◌, after_bind,
}
use hedge_desk.Time.{Moment, DateTime, aware_or}
use hedge_desk.Paper.Lifecycle.{
  PaperLifecycleCheck, lifecycle_action, blocking, evaluate_paper_lifecycle,
}

-- How urgent an action is.
abbrev pub urgency : String → ℕ
urgency action =
    if str_eq action "MONITOR"
    then 0
    else if str_eq action "CLOSE_REVIEW_REQUIRED"
    then 1
    else if str_eq action "EXPIRATION_RECONCILIATION_REQUIRED"
    then 2
    else if str_eq action "ASSIGNMENT_RECONCILIATION_REQUIRED"
    then 3
    else 4

-- Where the first condition holds, the second does.
abbrev pub Implies : Bool → Bool → Type 0
Implies a b = a ≡ true → b ≡ true

action_urgency :
    (planned expired money dividend notice adjustment settled : Bool) (now : Moment)
    → urgency (lifecycle_action planned expired money dividend notice adjustment settled now).action
      ≡ (if adjustment || not settled
          then 4
          else if notice
          then 3
          else if expired
          then 2
          else if (money && dividend) || planned
          then 1
          else 0)
unfolding lifecycle_action blocking
action_urgency pl ex mo di nt true se now = refl
action_urgency pl ex mo di nt false false now = refl
action_urgency pl ex mo di true false true now = refl
action_urgency pl true mo di false false true now = refl
action_urgency pl false true true false false true now = refl
action_urgency true false true false false false true now = refl
action_urgency false false true false false false true now = refl
action_urgency true false false di false false true now = refl
action_urgency false false false di false false true now = refl

-- Where each condition of a position carries over to a second one, and settlement terms that are
-- confirmed for the second were confirmed for the first, the second position's action is at least as
-- urgent: no warning that is added, and no confirmation that is lost, lowers the urgency.
pub lifecycle_monotone :
    (t u : DateTime) (planned planned' expired expired' money money' : Bool)
    (dividend dividend' notice notice' adjustment adjustment' settled settled' : Bool)
    (c d : PaperLifecycleCheck)
    → evaluate_paper_lifecycle t planned expired money dividend notice adjustment settled ≡ ok c
    → evaluate_paper_lifecycle u planned' expired' money' dividend' notice' adjustment' settled'
      ≡ ok d
    → Implies planned planned'
    → Implies expired expired'
    → Implies money money'
    → Implies dividend dividend'
    → Implies notice notice'
    → Implies adjustment adjustment'
    → Implies settled' settled
    → urgency c.action ≤ urgency d.action
unfolding evaluate_paper_lifecycle
lifecycle_monotone t u pl pl' ex ex' mo mo' di di' nt nt' ad ad' se se' c d h k i₁ i₂ i₃ i₄ i₅ i₆
      i₇ =
    after_bind (aware_or t (value_error "lifecycle timestamp must be timezone-aware")) _ h
      λ now _ h₁.
        after_bind (aware_or u (value_error "lifecycle timestamp must be timezone-aware")) _ k
          λ later _ k₁.
            subst₂ (λ x y. urgency x.action ≤ urgency y.action) (ok-injective _ c h₁)
              (ok-injective _ d k₁)
              (rw
                (
                  action_urgency pl ex mo di nt ad se now,
                  action_urgency pl' ex' mo' di' nt' ad' se' later,
                )
                (ground (arith, i₁, i₂, i₃, i₄, i₅, i₆, i₇)))
