-- ===== src/Engine/Stateful/Waits.antt =====
-- core/flowengine/stateful_executor.go: which tokens wait for an event.
use flowanything.Common.{
  String, ◌≡◌, refl, subst, ap, ◌⊎◌, inl, inr, ◌↔◌, Bool, true, false, ◌&&◌, ◌||◌, Bool-cases, List,
  [], ◌∷◌, In, ◌==◌, eq_iff, arith,
}
use flowanything.Engine.Instance.{TokenStatus, WaitCondition, ExecutionToken, ExternalEvent}
use flowanything.Engine.Stateful.Base.{is_waiting, condition_matches, wait_conditions_match}
use flowanything.Engine.Stateful.Resume.{is_matched}

-- The event has the type and the key of the condition, each where the condition names one.
abbrev pub IsMet : ExternalEvent → WaitCondition → Type 0
IsMet e c = ((c.type ≡ "") ⊎ (c.type ≡ e.type)) × ((c.event_key ≡ "") ⊎ (c.event_key ≡ e.key))

-- The token waits, and the event meets one of its conditions.
abbrev pub WaitsFor : ExternalEvent → ExecutionToken → Type 0
WaitsFor e t =
    (t.status ≡ TokenStatus.waiting) × ((c : WaitCondition) × In c t.waiting_for × IsMet e c)

is_met : (a b : String) → ((a == "" || a == b) ≡ true) ↔ ((a ≡ "") ⊎ (a ≡ b))
is_met a b = (
  (λ h. elim (Bool-cases (a == "")) [
    | inl e ↦ inl ((eq_iff a "").0 e)
    | inr e ↦ inr ((eq_iff a b).0 (rw e at h))
  ]),
  (λ m. elim m [ inl e ↦ ground (arith, eq_iff a "", e) | inr e ↦ ground (arith, eq_iff a b, e) ]),
)

and_iff : (a b : Bool) → ((a && b) ≡ true) ↔ ((a ≡ true) × (b ≡ true))
and_iff true b = ((λ h. (refl, h)), (λ p. p.1))
and_iff false b = ((λ h. absurd (cc)), (λ p. absurd (let h = p.0 in cc)))

condition_matches_iff :
    (c : WaitCondition) (e : ExternalEvent) → (condition_matches c e ≡ true) ↔ IsMet e c
unfolding condition_matches
condition_matches_iff c e =
    let both =
      and_iff (c.type == "" || c.type == e.type) (c.event_key == "" || c.event_key == e.key) in
    let type_met = is_met c.type e.type in
    let key_met = is_met c.event_key e.key in
    (
      (λ h. (type_met.0 (both.0 h).0, key_met.0 (both.0 h).1)),
      (λ p. both.1 (type_met.1 p.0, key_met.1 p.1)),
    )

wait_conditions_match_iff :
    (cs : List WaitCondition) (e : ExternalEvent)
    → (wait_conditions_match cs e ≡ true) ↔ ((c : WaitCondition) × In c cs × IsMet e c)
unfolding wait_conditions_match
wait_conditions_match_iff [] e = ((λ h. absurd (ground arith)), (λ (c, m, met). elim m [ ]))
wait_conditions_match_iff (d ∷ cs) e =
    let here = condition_matches_iff d e in
    let rest = wait_conditions_match_iff cs e in
    (
      (λ h. elim (Bool-cases (condition_matches d e)) [
        | inl now ↦ (d, inl refl, here.0 now)
        | inr other ↦ let (c, m, met) = rest.0 (rw other at h) in (c, inr m, met)
      ]),
      (λ (c, m, met). elim m [
        | inl same ↦ let now = here.1 (subst (IsMet e) same met) in ground (arith, now)
        | inr later ↦ let now = rest.1 (c, later, met) in ground (arith, now)
      ]),
    )

is_waiting_iff : (s : TokenStatus) → (is_waiting s ≡ true) ↔ (s ≡ TokenStatus.waiting)
is_waiting_iff TokenStatus.waiting = ((λ h. refl), (λ h. refl))
is_waiting_iff TokenStatus.ready = ((λ h. absurd (cc)), (λ e. ap is_waiting e))
is_waiting_iff TokenStatus.running = ((λ h. absurd (cc)), (λ e. ap is_waiting e))
is_waiting_iff TokenStatus.consumed = ((λ h. absurd (cc)), (λ e. ap is_waiting e))
is_waiting_iff TokenStatus.cancelled = ((λ h. absurd (cc)), (λ e. ap is_waiting e))

pub is_matched_iff :
    (e : ExternalEvent) (t : ExecutionToken) → (is_matched e t ≡ true) ↔ WaitsFor e t
unfolding is_matched
is_matched_iff e t =
    let both = and_iff (is_waiting t.status) (wait_conditions_match t.waiting_for e) in
    let waits = is_waiting_iff t.status in
    let met = wait_conditions_match_iff t.waiting_for e in
    (
      (λ h. elim (Bool-cases (is_waiting t.status)) [
        | inl w ↦ (waits.0 w, met.0 (rw w at h))
        | inr w ↦ absurd (let refused = rw w at h in cc)
      ]),
      (λ p. rw (waits.1 p.0) (met.1 p.1)),
    )
