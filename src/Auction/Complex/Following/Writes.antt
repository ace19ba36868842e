-- ===== src/Auction/Complex/Following/Writes.antt =====
-- A write to an auction for a result that tells of it, and for one that does not.
use rzu.Prelude.{
  ℕ, ◌≡◌, refl, ◌∙◌, sym, ap, Bool, true, false, ◌&&◌, ◌||◌, none, some, List, arith, ◌==◌, ==_iff,
  if◌then◌else◌, Bool-cases, Option-cases, inl, inr,
}
use rzu.Auction.Categories.{CategoryTime}
use rzu.Auction.Writer.{FlatMap, find, adjust, add_auction}
use rzu.Auction.Simple.Data.{SimpleInfo}
use rzu.Auction.Complex.Data.{ComplexData, new_complex}
use rzu.Auction.Complex.Status.{update, set_time_min, remove}
use rzu.Auction.Complex.Writer.{key, present, absent, true_previous_time, parse_epic}
use rzu.Auction.Complex.Lifecycle.Marks.{Phase, update-Phase, remove-Phase, Phase-set_time_min}
use rzu.Auction.Complex.Same.{updated-IsSame, removed-IsSame, new_complex-IsSame}
use rzu.Auction.Complex.Following.Lists.{find-adjust}

-- An auction of this uid, so far in its round.
abbrev pub Follows : ℕ → Bool → Bool → Bool → ℕ → List ComplexData → Type 0
Follows k found told deleted count l =
    (a : ComplexData) × (find key k l ≡ some a) × Phase found told deleted count a

same_find :
    (k : ℕ) (info : SimpleInfo) (l : List ComplexData)
    → (info.uid == k) ≡ true
    → find key info.uid l ≡ find key k l
same_find k info l s = ap (λ u. find key u l) ((==_iff info.uid k).0 s)

module _ (k : ℕ) (found told deleted : Bool) (count : ℕ) (info : SimpleInfo)
    (times : List CategoryTime) (l : List ComplexData) where
  -- A write to the auction of this result, which is ours or not.
  adjusted :
      (f : ComplexData → ComplexData)
      → ((b : ComplexData) → (f b).uid ≡ b.uid)
      → (a : ComplexData) → find key k l ≡ some a
      → find key k (adjust key info.uid f l) ≡ some (if info.uid == k then f a else a)
  adjusted f same a e = elim (Bool-cases (info.uid == k)) [
    | inl s ↦ find-adjust k info.uid f l same ∙ rw (s, e) refl
    | inr s ↦ find-adjust k info.uid f l same ∙ rw (s, e) refl
  ]

  not_here :
      (a : ComplexData)
      → find key k l ≡ some a
      → find key info.uid l ≡ none
      → (info.uid == k) ≡ false
  not_here a e g = elim (Bool-cases (info.uid == k)) [
    | inl s ↦ absurd (ground (arith, sym g ∙ (same_find k info l s ∙ e)))
    | inr s ↦ s
  ]

  added :
      (m : FlatMap ComplexData key) (a : ComplexData) (time_min epic : ℕ)
      → find key k l ≡ some a
      → find key info.uid l ≡ none
      → find key k (
          add_auction m (new_complex info.uid time_min info.time info.category epic info.content) l)
        ≡ some a
  unfolding add_auction
  added m a time_min epic e g =
      let made = new_complex info.uid time_min info.time info.category epic info.content in
      let uid =
        (new_complex-IsSame info.uid time_min info.time info.category epic info.content).uid in
      let free : find key made.uid l ≡ none = ap (λ u. find key u l) uid ∙ g in
      let other : (made.uid == k) ≡ false = ap (λ u. u == k) uid ∙ not_here a e g in
      rw (free) (m.find-insert made l free k ∙ rw (other) e)

  Phase-if :
      (f : ComplexData → ComplexData) (a : ComplexData) (now later : Bool)
      → Phase found told deleted count a
      → Phase (now || found) (later || told) deleted count (f a)
      → Phase
          ((info.uid == k) && now || found)
          ((info.uid == k) && later || told)
          deleted
          count
          (if info.uid == k then f a else a)
  Phase-if f a now later h j = elim (Bool-cases (info.uid == k)) [
    | inl s ↦ rw (s) j
    | inr s ↦ rw (s) h
  ]

  pub present-Follows :
      (m : FlatMap ComplexData key) (a : ComplexData)
      → find key k l ≡ some a
      → Phase found told deleted count a
      → Follows k
          ((info.uid == k) && true || found)
          ((info.uid == k) && true || told)
          deleted
          count
          (present m info times l)
  unfolding present
  present-Follows m a e h = elim (Option-cases (find key info.uid l)) [
    | inl g ↦ let other = not_here a e g in (a, rw (present, g) (added m a _ _ e g), rw (other) h)
    | inr (b, g) ↦
        let previous = true_previous_time info (some b) times in
        let f = λ (c : ComplexData).
          update info.time (parse_epic info.epic info.time) info.content
            (set_time_min previous c) in
        (
          (if info.uid == k then f a else a),
          rw (present, g)
              (adjusted f (λ c. (updated-IsSame info.time previous c _ info.content).uid) a e),
          Phase-if f a true true h (
              update-Phase _ _ _ found told deleted count (set_time_min previous a)
                (Phase-set_time_min previous found told deleted count a h)),
        )
  ]

  pub absent-Follows :
      (a : ComplexData)
      → find key k l ≡ some a
      → Phase found told deleted count a
      → Follows k
          ((info.uid == k) && false || found)
          ((info.uid == k) && true || told)
          deleted
          count
          (absent info times l)
  unfolding absent
  absent-Follows a e h = elim (Option-cases (find key info.uid l)) [
    | inl g ↦ (a, rw (absent, g) e, rw (not_here a e g) h)
    | inr (b, g) ↦
        let previous = true_previous_time info (some b) times in
        let f = λ (c : ComplexData). remove info.time (set_time_min previous c) in
        (
          (if info.uid == k then f a else a),
          rw (absent, g) (adjusted f (λ c. (removed-IsSame info.time previous c).uid) a e),
          Phase-if f a false true h (
              remove-Phase _ found told deleted count (set_time_min previous a)
                (Phase-set_time_min previous found told deleted count a h)),
        )
  ]
