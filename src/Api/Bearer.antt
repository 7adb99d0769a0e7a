-- ===== src/Api/Bearer.antt =====
-- The token that a client sends is the token that the gateway reads: src/api/plugins/auth.ts
use mathlib.Core.Option
use mathlib.Core.Path.{subst}
use mathlib.Core.List.{reverse, reverse-cons, reverse-reverse}
use notify_hub.Base.{
  ℕ, false, ◌||◌, some, [], ◌∷◌, ◌++◌, any, Text, lit, ◌==◌, trim, drop_while, drop_while_end,
  is_space, is_empty, ◌≡◌, ◌≢◌, refl, ap, ◌∙◌, Mem, exists_of_mem-map, arith,
}
use notify_hub.Base.Sort.{mem-sort}
use notify_hub.Base.Table.{find_by-mem, find_by}
use notify_hub.Core.{ProfileRecord}
use notify_hub.Channels.Adapters.Direct.{lower_ascii}
use notify_hub.Db.{Db, ProfileRow}
use notify_hub.Db.Integrity.{IsConsistent, token}
use notify_hub.Db.Profiles.{row_to_record, in_order, list, resolve_by_token}
use notify_hub.Api.{extract_bearer_token, captured, is_line_end}

-- A token that a header can carry.
abbrev pub IsToken : Text → Type 0
IsToken s = (s ≢ []) × (any is_space s ≡ false)

is_line_end-is_space : (c : ℕ) → is_space c ≡ false → is_line_end c ≡ false
unfolding is_space is_line_end
is_line_end-is_space c h = ground arith

any-is_line_end : (s : Text) → any is_space s ≡ false → any is_line_end s ≡ false
any-is_line_end [] h = refl
any-is_line_end (c ∷ s) h = ground (arith, is_line_end-is_space c, any-is_line_end s)

drop_while_id : (s : Text) → any is_space s ≡ false → drop_while is_space s ≡ s
unfolding drop_while
drop_while_id [] h = refl
drop_while_id (c ∷ s) h = ground arith

any-append : (s t : Text) → any is_space (s ++ t) ≡ (any is_space s || any is_space t)
any-append [] t = refl
any-append (c ∷ s) t = ground (arith, any-append s t)

any-reverse : (s : Text) → any is_space (reverse s) ≡ any is_space s
any-reverse [] = refl
any-reverse (c ∷ s) =
    ap (any is_space) (reverse-cons c s)
    ∙ any-append (reverse s) (c ∷ [])
    ∙ ground (arith, any-reverse s)

trim_id : (s : Text) → any is_space s ≡ false → trim s ≡ s
unfolding trim drop_while_end
trim_id s h =
    rw (drop_while_id s h, drop_while_id (reverse s) (any-reverse s ∙ h)) (reverse-reverse s)

captured_lem : (s : Text) → IsToken s → captured (lit " " ++ s) s ≡ some s
unfolding captured is_space lit
captured_lem [] (nonempty, h) = absurd (nonempty refl)
captured_lem (c ∷ s) (nonempty, h) = rw (any-is_line_end (c ∷ s) h, trim_id (c ∷ s) h) refl

-- A token that is not empty and holds no white space, sent as `Bearer <token>`, is what
-- `extractBearerToken` reads.
pub extract_bearer_token-bearer :
    (s : Text) → IsToken s → extract_bearer_token (some (lit "Bearer " ++ s)) ≡ some s
unfolding extract_bearer_token lit lower_ascii ◌==◌ drop_while is_space
extract_bearer_token-bearer s h =
    ap (captured (lit " " ++ s)) (drop_while_id s h.1) ∙ captured_lem s h

resolve_found :
    (db : Db) (row : ProfileRow) (t : Text)
    → row.token ≡ t
    → t ≢ []
    → find_by token row.token db.profiles ≡ some row
    → resolve_by_token db (some t) ≡ some (row_to_record db row)
unfolding resolve_by_token is_empty find_by
resolve_found db row [] e nonempty found = absurd (nonempty refl)
resolve_found db row (c ∷ t) e nonempty found =
    ap (Option.map (row_to_record db)) (subst (λ s. find_by token s db.profiles ≡ some row) e found)

-- A listed profile is found by its token.
pub resolve_by_token-mem :
    (db : Db) (p : ProfileRecord)
    → IsConsistent db
    → Mem p (list db)
    → p.token ≢ []
    → resolve_by_token db (some p.token) ≡ some p
unfolding list
resolve_by_token-mem db p consistent there nonempty =
    let (row, listed, same) = exists_of_mem-map (row_to_record db) p _ there in
    let stored = (mem-sort in_order row db.profiles).0 listed in
    let e : row.token ≡ p.token =
      unfold row_to_record in ap (λ (r : ProfileRecord). r.token) same in
    resolve_found db row p.token e nonempty
      (find_by-mem token db.profiles row consistent.tokens stored)
    ∙ ap some same
