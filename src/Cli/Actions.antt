-- ===== src/Cli/Actions.antt =====
-- The choice of an action, of rs/src/cli.rs.
use minisign_rs.Base.{
  ◌≡◌, ◌≢◌, ◌↔◌, refl, sym, ap, ◌∙◌, Bool, true, false, none, some, List, [], ◌∷◌, All, ◌⊎◌, inl,
  inr, if◌then◌else◌,
}
use minisign_rs.Errors.{ok}
use minisign_rs.Cli.{
  Action, generate_action, sign_action, verify_action, recreate_action, change_action,
  inspect_action, all_actions, found_actions, single_action, parse_action,
}

-- An action is given, and no other.
abbrev pub IsOnly : (Action → Bool) → Action → Type 0
IsOnly present a = (present a ≡ true) × ((other : Action) → present other ≡ true → other ≡ a)

module _ (present : Action → Bool) where
  branch :
      (b : Bool) (x a : Action) (rest out : List Action)
      → (if b then x ∷ rest else rest) ≡ a ∷ out
      → ((b ≡ true) × (x ≡ a) × (rest ≡ out)) ⊎ ((b ≡ false) × (rest ≡ a ∷ out))
  branch true x a rest out h = inl (refl, cc, cc)
  branch false x a rest out h = inr (refl, h)

  skipped :
      (b : Bool) (x : Action) (rest : List Action)
      → (if b then x ∷ rest else rest) ≡ []
      → (b ≡ false) × (rest ≡ [])
  skipped true x rest h = cc
  skipped false x rest h = (refl, h)

  none_found : (xs : List Action) → found_actions present xs ≡ [] → All (λ b. present b ≡ false) xs
  unfolding found_actions
  none_found [] h = tt
  none_found (x ∷ xs) h =
      let (a, c) = skipped (present x) x (found_actions present xs) h in (a, none_found xs c)

  -- What a list of actions allows once one of them is chosen.
  abbrev Allows : Action → Action → Type 0
  Allows a b = present b ≡ true → b ≡ a

  none-Allows :
      (a : Action) (xs : List Action) → All (λ b. present b ≡ false) xs → All (Allows a) xs
  none-Allows a [] h = tt
  none-Allows a (x ∷ xs) (h, k) = (λ p. cc, none-Allows a xs k)

  one_found :
      (xs : List Action) (a : Action)
      → found_actions present xs ≡ a ∷ []
      → (present a ≡ true) × All (Allows a) xs
  unfolding found_actions
  one_found [] a h = cc
  one_found (x ∷ xs) a h = elim (branch (present x) x a (found_actions present xs) [] h) [
    | inl (p, same, rest) ↦
        (ap present (sym same) ∙ p, ((λ q. same), none-Allows a xs (none_found xs rest)))
    | inr (p, rest) ↦ let (q, r) = one_found xs a rest in (q, ((λ t. cc), r))
  ]

  single_action-ok : (xs : List Action) (a : Action) → single_action xs ≡ ok (some a) → xs ≡ a ∷ []
  unfolding single_action
  single_action-ok [] a h = cc
  single_action-ok (x ∷ []) a h = cc
  single_action-ok (x ∷ y ∷ xs) a h = cc

  single_action-none : (xs : List Action) → single_action xs ≡ ok none → xs ≡ []
  unfolding single_action
  single_action-none [] h = refl
  single_action-none (x ∷ []) h = cc
  single_action-none (x ∷ y ∷ xs) h = cc

  every : (P : Action → Type 0) → All P all_actions → (a : Action) → P a
  every P (g, (s, (v, (r, (c, (i, u)))))) generate_action = g
  every P (g, (s, (v, (r, (c, (i, u)))))) sign_action = s
  every P (g, (s, (v, (r, (c, (i, u)))))) verify_action = v
  every P (g, (s, (v, (r, (c, (i, u)))))) recreate_action = r
  every P (g, (s, (v, (r, (c, (i, u)))))) change_action = c
  every P (g, (s, (v, (r, (c, (i, u)))))) inspect_action = i

  -- If `parse_action` gives an action, then its flag is given and that of no other action is.
  parse_action-IsOnly : (a : Action) → parse_action present ≡ ok (some a) → IsOnly present a
  unfolding parse_action
  parse_action-IsOnly a h =
      let (p, q) =
        one_found all_actions a (single_action-ok (found_actions present all_actions) a h) in
      (p, every (Allows a) q)

  parse_action-none : parse_action present ≡ ok none → (a : Action) → present a ≡ false
  unfolding parse_action
  parse_action-none h =
      every (λ a. present a ≡ false)
        (none_found all_actions (single_action-none (found_actions present all_actions) h))

  absent : (b : Bool) (a other : Action) → (b ≡ true → other ≡ a) → other ≢ a → b ≡ false
  absent true a other h ne = absurd (ne (h refl))
  absent false a other h ne = refl

  others : (a : Action) → IsOnly present a → (other : Action) → other ≢ a → present other ≡ false
  others a (p, only) other ne = absent (present other) a other (only other) ne

  IsOnly-parsed : (a : Action) → IsOnly present a → parse_action present ≡ ok (some a)
  unfolding parse_action found_actions single_action
  IsOnly-parsed generate_action o =
      rw
        (
          o.0,
          others _ o sign_action (λ e. cc),
          others _ o verify_action (λ e. cc),
          others _ o recreate_action (λ e. cc),
          others _ o change_action (λ e. cc),
          others _ o inspect_action (λ e. cc),
        )
        refl
  IsOnly-parsed sign_action o =
      rw
        (
          others _ o generate_action (λ e. cc),
          o.0,
          others _ o verify_action (λ e. cc),
          others _ o recreate_action (λ e. cc),
          others _ o change_action (λ e. cc),
          others _ o inspect_action (λ e. cc),
        )
        refl
  IsOnly-parsed verify_action o =
      rw
        (
          others _ o generate_action (λ e. cc),
          others _ o sign_action (λ e. cc),
          o.0,
          others _ o recreate_action (λ e. cc),
          others _ o change_action (λ e. cc),
          others _ o inspect_action (λ e. cc),
        )
        refl
  IsOnly-parsed recreate_action o =
      rw
        (
          others _ o generate_action (λ e. cc),
          others _ o sign_action (λ e. cc),
          others _ o verify_action (λ e. cc),
          o.0,
          others _ o change_action (λ e. cc),
          others _ o inspect_action (λ e. cc),
        )
        refl
  IsOnly-parsed change_action o =
      rw
        (
          others _ o generate_action (λ e. cc),
          others _ o sign_action (λ e. cc),
          others _ o verify_action (λ e. cc),
          others _ o recreate_action (λ e. cc),
          o.0,
          others _ o inspect_action (λ e. cc),
        )
        refl
  IsOnly-parsed inspect_action o =
      rw
        (
          others _ o generate_action (λ e. cc),
          others _ o sign_action (λ e. cc),
          others _ o verify_action (λ e. cc),
          others _ o recreate_action (λ e. cc),
          others _ o change_action (λ e. cc),
          o.0,
        )
        refl

  -- `parse_action` gives an action exactly if its flag is given and that of no other action is.
  pub parse_action_iff : (a : Action) → (parse_action present ≡ ok (some a)) ↔ IsOnly present a
  parse_action_iff a = (parse_action-IsOnly a, IsOnly-parsed a)
