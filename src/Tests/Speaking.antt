-- ===== src/Tests/Speaking.antt =====
-- A speech queue whose third item throws, and the theorems applied to it; and the voices of a Mac.
use notify_hub.Base.{
  ℕ, suc, Bool, false, [], ◌∷◌, length, lit, ◌≡◌, refl, trim, split, drop_while, drop_while_end,
  is_space, is_empty, eqb,
}
use notify_hub.Player.Speech.{Queue, Reach, start, request, settle_all, new_queue, enqueue}
use notify_hub.Player.Speech.Order.{IsOrderly, Reach-IsOrderly, settle_all_lem}
use notify_hub.Player.Voices.{parse_voices_output}

sampled :
    parse_voices_output (lit "Grandma (Portuguese (Brazil))  pt_BR    # Oi\n\nbad\nMajed ar_001 #")
    ≡ record { name = lit "Grandma (Portuguese (Brazil))"; locale = lit "pt_BR"; sample = lit "Oi" }
      ∷ record { name = lit "Majed"; locale = lit "ar_001"; sample = [] }
      ∷ []
unfolding parse_voices_output lit split trim drop_while drop_while_end is_space is_empty
sampled = refl

abbrev third_throws : ℕ → Bool
third_throws item = eqb item 3

abbrev two_waiting : Queue third_throws
two_waiting =
    enqueue third_throws 3
      (enqueue third_throws 2 (enqueue third_throws 1 (new_queue third_throws)))

requests : Reach third_throws (1 ∷ 2 ∷ 3 ∷ []) two_waiting
requests = request 3 (request 2 (request 1 start))

Reach-IsOrderly_example : IsOrderly third_throws (1 ∷ 2 ∷ 3 ∷ []) two_waiting
Reach-IsOrderly_example = Reach-IsOrderly third_throws (1 ∷ 2 ∷ 3 ∷ []) two_waiting requests

settle_all_lem_example :
    let r = settle_all third_throws (suc (length two_waiting.pending)) two_waiting in
    (r.running ≡ false) × (r.unsettled ≡ 0) × (r.started ≡ 1 ∷ 2 ∷ 3 ∷ [])
settle_all_lem_example = settle_all_lem third_throws (1 ∷ 2 ∷ 3 ∷ []) two_waiting requests
