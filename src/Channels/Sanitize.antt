-- ===== src/Channels/Sanitize.antt =====
-- The redaction of response bodies in src/channels/adapters/whatsapp-channel.ts and
-- src/channels/adapters/voicemonkey-channel.ts.
pub mod Redaction
use notify_hub.Base.{
  ℕ, Bool, true, false, ◌||◌, ◌&&◌, not, Option, none, some, List, [], ◌∷◌, ◌++◌, Text, lit, split,
  join, trim, take, is_space, eqb, any, is_empty, if◌then◌else◌,
}

-- `body.replace(/<[^>]*>/g, ' ')`: a `<` that a later `>` closes becomes a space with all between
-- them; `inside` says that the unit read is between the two.
strip_from : Bool → Text → Text
strip_from inside [] = []
strip_from inside (c ∷ s) =
    let opens = not inside && eqb c b'<' && any (λ d. eqb d b'>') s in
    let stays = inside && not (eqb c b'>') in
    let rest = strip_from (opens || stays) s in
    if opens then b' ' ∷ rest else if inside then rest else c ∷ rest

unfoldable pub strip_html : Text → Text
unfolding strip_from
strip_html s = strip_from false s

-- `s.replace(/\s+/g, ' ')`
collapse_from : Bool → Text → Text
collapse_from after_space [] = []
collapse_from after_space (c ∷ s) =
    let rest = collapse_from (is_space c) s in
    if is_space c then (if after_space then rest else b' ' ∷ rest) else c ∷ rest

unfoldable pub collapse_spaces : Text → Text
unfolding collapse_from is_space
collapse_spaces s = collapse_from false s

abbrev pub redacted : Text
redacted = lit "<redacted>"

-- `if (secret) text = text.split(secret).join('<redacted>')`
unfoldable pub redact : Option Text → Text → Text
unfolding is_empty split join
redact none text = text
redact (some secret) text = if is_empty secret then text else join (split text secret) redacted

-- The loop over the two secrets, and `text.slice(0, 160)`.
unfoldable pub redact_both : Option Text → Option Text → Text → Text
unfolding redact
redact_both first second text = take 160 (redact second (redact first text))

unfoldable pub sanitize_whatsapp : Option Text → Option Text → Text → Text
unfolding redact_both trim collapse_spaces strip_html
sanitize_whatsapp phone apikey body =
    redact_both phone apikey (trim (collapse_spaces (strip_html body)))

unfoldable pub sanitize_voicemonkey : Option Text → Option Text → Text → Text
unfolding redact_both trim collapse_spaces
sanitize_voicemonkey token device body = redact_both token device (trim (collapse_spaces body))
