-- ===== src/Config/Tokens.antt =====
-- The profiles that `parseTokens` gives.
use mathlib.Core.Path.{subst}
use notify_hub.Base.{
  false, ◌||◌, not, List, [], ◌∷◌, map, Text, lit, trim, split, is_empty, mem-filter, ◌≡◌, ◌≢◌, ap,
  inl, inr, All, All-of_mem, arith, Bool-cases,
}
use notify_hub.Core.{Profile}
use notify_hub.Ports.{Outcome, ok, raise, Outcome-cases}
use notify_hub.Config.{parse_csv, parse_parts, parse_entries, parse_tokens}

-- A profile with a name and a token, and no blank among its default channels.
abbrev pub IsNamed : Profile → Type 0
IsNamed profile =
    (profile.name ≢ []) × (profile.token ≢ []) × All (λ id. id ≢ []) profile.default_channels

not-empty : (s : Text) → is_empty s ≡ false → s ≢ []
unfolding is_empty
not-empty [] e = absurd (cc e)
not-empty (c ∷ s) e = λ k. absurd (cc k)

All-parse_csv : (raw : Text) → All (λ id. id ≢ []) (parse_csv raw)
unfolding parse_csv
All-parse_csv raw = All-of_mem _ _ (λ id m.
    let kept =
      ((mem-filter (λ (s : Text). not (is_empty s)) id (map trim (split raw (lit ",")))).0 m).1 in
    not-empty id (ground arith))

ok-injective : {A : Type 0} (a b : A) → ok a ≡ ok b → a ≡ b
ok-injective a b e = ap (value a) e
  where
    value : {A : Type 0} → A → Outcome A → A
    value d (ok a) = a
    value d (raise message) = d

parse_parts-IsNamed :
    (entry : Text) (parts : List Text) (profile : Profile)
    → parse_parts entry parts ≡ ok profile
    → IsNamed profile
unfolding parse_parts
parse_parts-IsNamed entry [] profile e = absurd (cc e)
parse_parts-IsNamed entry (name ∷ []) profile e = absurd (cc e)
parse_parts-IsNamed entry (name ∷ token ∷ []) profile e = absurd (cc e)
parse_parts-IsNamed entry (name ∷ token ∷ channels ∷ []) profile e =
    elim (Bool-cases (is_empty name || is_empty token)) [
      | inl blank ↦ absurd (cc (rw blank at e))
      | inr given ↦ subst IsNamed (ok-injective _ profile (rw given at e)) (
        not-empty name (ground (arith, given)),
        not-empty token (ground (arith, given)),
        All-parse_csv channels,
      )
    ]
parse_parts-IsNamed entry (name ∷ token ∷ channels ∷ more ∷ parts) profile e = absurd (cc e)

parse_entries-IsNamed :
    (entries : List Text) (profiles : List Profile)
    → parse_entries entries ≡ ok profiles
    → All IsNamed profiles
unfolding parse_entries
parse_entries-IsNamed [] profiles e = subst (All IsNamed) (ok-injective [] profiles e) tt
parse_entries-IsNamed (entry ∷ entries) profiles e =
    elim (Outcome-cases (parse_parts entry (split entry (lit ":")))) [
      | inr (m, bad) ↦ absurd (cc (rw (bad, parse_entries) at e))
      | inl (profile, good) ↦ elim (Outcome-cases (parse_entries entries)) [
        | inr (m, bad) ↦ absurd (cc (rw (good, parse_entries, bad) at e))
        | inl (rest, later) ↦
            subst (All IsNamed)
              (ok-injective (profile ∷ rest) profiles (rw (good, parse_entries, later) at e))
              (
                parse_parts-IsNamed entry (split entry (lit ":")) profile good,
                parse_entries-IsNamed entries rest later,
              )
      ]
    ]

-- If TOKENS is accepted, every profile of it has a name, a token, and no empty channel id.
pub parse_tokens-IsNamed :
    (raw : Text) (profiles : List Profile) → parse_tokens raw ≡ ok profiles → All IsNamed profiles
unfolding parse_tokens
parse_tokens-IsNamed raw profiles e = parse_entries-IsNamed _ profiles e
