-- ===== src/Channels/Sanitize/Redaction.antt =====
-- The redaction of secrets, as one pass over the text: src/channels/adapters/whatsapp-channel.ts and
-- voicemonkey-channel.ts.
use notify_hub.Base.{
  ℕ, zero, suc, ◌-◌, true, false, Option, none, some, List, [], ◌∷◌, ◌++◌, append_assoc, append-nil,
  Text, lit, length, split, split_from, join, starts_with, includes, take, is_empty, any, eqb, All,
  ◌≡◌, refl, sym, ap, ◌∙◌, inl, inr, arith, Bool-cases, if◌then◌else◌,
}
use notify_hub.Channels.Sanitize.{
  redacted, redact, redact_both, sanitize_whatsapp, sanitize_voicemonkey,
}

-- The text with each occurrence of `secret` replaced, in one pass, as `split` and `join` do.
replaced : Text → ℕ → Text → Text
replaced secret k [] = []
replaced secret (suc k) (c ∷ s) = replaced secret k s
replaced secret zero (c ∷ s) =
    let found = redacted ++ replaced secret (length secret - 1) s in
    let kept = c ∷ replaced secret zero s in if starts_with (c ∷ s) secret then found else kept

split_from-cons :
    (sep : Text) (k : ℕ) (seen s : Text)
    → (first : Text) × (rest : List Text) × (split_from sep k seen s ≡ first ∷ rest)
unfolding split_from
split_from-cons sep k seen [] = (seen, [], refl)
split_from-cons sep (suc k) seen (c ∷ s) = split_from-cons sep k seen s
split_from-cons sep zero seen (c ∷ s) = elim (Bool-cases (starts_with (c ∷ s) sep)) [
  | inl h ↦ (seen, split_from sep (length sep - 1) [] s, rw h refl)
  | inr h ↦
      let (first, rest, e) = split_from-cons sep zero (seen ++ c ∷ []) s in (first, rest, rw h e)
]

join-cons :
    (piece sep first : Text) (rest : List Text) (pieces : List Text)
    → pieces ≡ first ∷ rest
    → join (piece ∷ pieces) sep ≡ piece ++ (sep ++ join pieces sep)
unfolding join
join-cons piece sep first rest pieces e = rw e refl

join-split_from :
    (secret : Text) (k : ℕ) (seen s : Text)
    → join (split_from secret k seen s) redacted ≡ seen ++ replaced secret k s
unfolding split_from replaced join
join-split_from secret k seen [] = sym (append-nil seen)
join-split_from secret (suc k) seen (c ∷ s) = join-split_from secret k seen s
join-split_from secret zero seen (c ∷ s) = elim (Bool-cases (starts_with (c ∷ s) secret)) [
  | inl h ↦
      let (first, rest, e) = split_from-cons secret (length secret - 1) [] s in
      rw h (
        join-cons seen redacted first rest (split_from secret (length secret - 1) [] s) e
        ∙ ap (λ t. seen ++ (redacted ++ t)) (join-split_from secret (length secret - 1) [] s))
  | inr h ↦ rw h (join-split_from secret zero (seen ++ c ∷ []) s ∙ append_assoc seen (c ∷ []) _)
]

-- No unit of the text occurs in the replacement.
abbrev pub Avoids : Text → Type 0
Avoids p = All (λ c. any (λ d. eqb d c) redacted ≡ false) p

starts_with-replaced :
    (secret s p : Text)
    → Avoids p
    → starts_with (replaced secret zero s) p ≡ true
    → starts_with s p ≡ true
unfolding starts_with replaced lit
starts_with-replaced secret s [] h e = ground arith
starts_with-replaced secret [] (b ∷ p) h e = absurd (cc e)
starts_with-replaced secret (c ∷ s) (b ∷ p) h e = elim (Bool-cases (starts_with (c ∷ s) secret)) [
  | inl found ↦ absurd (ground (arith, rw found at e, h.0))
  | inr kept ↦ ground (arith, rw kept at e, starts_with-replaced secret s p h.1)
]

includes-append :
    (r t : Text) (b : ℕ) (p : Text)
    → any (λ d. eqb d b) r ≡ false
    → includes t (b ∷ p) ≡ false
    → includes (r ++ t) (b ∷ p) ≡ false
unfolding includes starts_with
includes-append [] t b p h e = e
includes-append (c ∷ r) t b p h e = ground (arith, includes-append r t b p)

-- Replacing one secret brings in no occurrence of another text.
includes-replaced :
    (secret : Text) (k : ℕ) (s : Text) (b : ℕ) (p : Text)
    → Avoids (b ∷ p)
    → includes s (b ∷ p) ≡ false
    → includes (replaced secret k s) (b ∷ p) ≡ false
unfolding includes replaced
includes-replaced secret k [] b p h e = e
includes-replaced secret (suc k) (c ∷ s) b p h e = includes-replaced secret k s b p h (ground arith)
includes-replaced secret zero (c ∷ s) b p h e = elim (Bool-cases (starts_with (c ∷ s) secret)) [
  | inl found ↦ rw found (
      includes-append redacted (replaced secret (length secret - 1) s) b p h.0
        (includes-replaced secret (length secret - 1) s b p h (ground arith)))
  | inr kept ↦
      let later = includes-replaced secret zero s b p h (ground arith) in
      let back = starts_with-replaced secret (c ∷ s) (b ∷ p) h in
      rw kept (ground (arith, rw (kept, replaced) at back, later))
]

includes-replaced_self :
    (b : ℕ) (p : Text) (k : ℕ) (s : Text)
    → Avoids (b ∷ p)
    → includes (replaced (b ∷ p) k s) (b ∷ p) ≡ false
unfolding includes replaced
includes-replaced_self b p k [] h = refl
includes-replaced_self b p (suc k) (c ∷ s) h = includes-replaced_self b p k s h
includes-replaced_self b p zero (c ∷ s) h = elim (Bool-cases (starts_with (c ∷ s) (b ∷ p))) [
  | inl found ↦ rw found (
      includes-append redacted (replaced (b ∷ p) (length (b ∷ p) - 1) s) b p h.0
        (includes-replaced_self b p (length (b ∷ p) - 1) s h))
  | inr kept ↦
      let later = includes-replaced_self b p zero s h in
      let back = starts_with-replaced (b ∷ p) (c ∷ s) (b ∷ p) h in
      rw kept (ground (arith, rw (kept, replaced) at back, later))
]

starts_with-take : (n : ℕ) (s p : Text) → starts_with (take n s) p ≡ true → starts_with s p ≡ true
unfolding starts_with
starts_with-take n s [] e = ground arith
starts_with-take zero s (b ∷ p) e = absurd (cc e)
starts_with-take (suc n) [] (b ∷ p) e = absurd (cc e)
starts_with-take (suc n) (c ∷ s) (b ∷ p) e = ground (arith, starts_with-take n s p)

includes-take :
    (n : ℕ) (s : Text) (b : ℕ) (p : Text)
    → includes s (b ∷ p) ≡ false
    → includes (take n s) (b ∷ p) ≡ false
unfolding includes
includes-take zero s b p e = unfold starts_with in refl
includes-take (suc n) [] b p e = e
includes-take (suc n) (c ∷ s) b p e =
    ground (arith, includes-take n s b p, starts_with-take (suc n) (c ∷ s) (b ∷ p))

redact-eq-replaced :
    (b : ℕ) (p text : Text) → redact (some (b ∷ p)) text ≡ replaced (b ∷ p) zero text
unfolding redact is_empty split
redact-eq-replaced b p text = join-split_from (b ∷ p) zero [] text

includes-redact :
    (secret : Option Text) (text : Text) (b : ℕ) (p : Text)
    → Avoids (b ∷ p)
    → includes text (b ∷ p) ≡ false
    → includes (redact secret text) (b ∷ p) ≡ false
includes-redact none text b p h e = unfold redact in e
includes-redact (some []) text b p h e = unfold redact is_empty in e
includes-redact (some (c ∷ q)) text b p h e =
    rw (redact-eq-replaced c q text) (includes-replaced (c ∷ q) zero text b p h e)

includes-redact_both :
    (b : ℕ) (p : Text) (other : Option Text) (text : Text)
    → Avoids (b ∷ p)
    → (includes (redact_both (some (b ∷ p)) other text) (b ∷ p) ≡ false)
      × (includes (redact_both other (some (b ∷ p)) text) (b ∷ p) ≡ false)
unfolding redact_both
includes-redact_both b p other text h = (
  includes-take 160 _ b p (
      includes-redact other _ b p h
        (rw (redact-eq-replaced b p text) (includes-replaced_self b p zero text h))),
  includes-take 160 _ b p (
      rw (redact-eq-replaced b p (redact other text))
        (includes-replaced_self b p zero (redact other text) h)),
)

-- A secret that shares no character with "<redacted>", such as a phone number, is nowhere in what
-- the `sanitize` of the WhatsApp adapter and that of the Voice Monkey adapter return, whichever of the
-- adapter's two secrets it is, and whatever the body and the other secret are. Of what Voice Monkey's
-- `describeError` makes of a JSON body with an `error`, which does not pass `sanitize`, it says
-- nothing.
pub includes-sanitize :
    (b : ℕ) (p : Text) (other : Option Text) (body : Text)
    → Avoids (b ∷ p)
    → ((includes (sanitize_whatsapp (some (b ∷ p)) other body) (b ∷ p) ≡ false)
        × (includes (sanitize_whatsapp other (some (b ∷ p)) body) (b ∷ p) ≡ false))
      × ((includes (sanitize_voicemonkey (some (b ∷ p)) other body) (b ∷ p) ≡ false)
          × (includes (sanitize_voicemonkey other (some (b ∷ p)) body) (b ∷ p) ≡ false))
unfolding sanitize_whatsapp sanitize_voicemonkey
includes-sanitize b p other body h =
    (includes-redact_both b p other _ h, includes-redact_both b p other _ h)
