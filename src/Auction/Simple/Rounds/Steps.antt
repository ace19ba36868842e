-- ===== src/Auction/Simple/Rounds/Steps.antt =====
-- The writer follows every uid on its own.
use rzu.Prelude.{
  ℕ, ◌≡◌, refl, ◌∙◌, sym, ap, true, false, Option, none, some, List, [], ◌∷◌, Bytes, arith, ◌==◌,
  if◌then◌else◌, Bool-cases, inl, inr, ==_iff,
}
use mathlib.Core.Option
use rzu.Auction.Categories.{
  CategoryTime, touch, get_estimated_category_end_time, get_estimated_previous_category_begin_time,
}
use rzu.Auction.Writer.{FlatMap, Writer, find, adjust, add_auction, begin_each, end_each}
use rzu.Auction.Simple.Data
use rzu.Auction.Simple.Data.{
  SimpleData, ProcessStatus, ps_not_processed, ps_unmodified, ps_added, ps_updated, ps_deleted,
  is_empty, differ, is_changed, store_data, new_simple, set_status, do_update, is_in_final_state,
  is_deleted, is_added, is_updated, is_not_processed,
}
use rzu.Auction.Simple.Writer.{
  key, add_or_update, add_auction_info, begin_process, end_auction, end_process,
}
use rzu.Auction.RoundTrip.Simple.{uid-end_process}
use rzu.Auction.RoundTrip.Order.{AllAbove, IsOrdered}
use rzu.Auction.Simple.Rounds.{
  Result, search_all, round, View, look, view_of, view, begin_view, see, end_view, see_all,
  next_view,
}

-- The operations on one auction.
do_update-look :
    (time epic : ℕ) (content : Bytes) (a : SimpleData)
    → some (look (do_update time epic content a)) ≡ see content (some (look a))
unfolding do_update store_data set_status
do_update-look time epic content a = ground arith

new_simple-look :
    (uid time_min time_max category epic : ℕ) (content : Bytes)
    → look (new_simple uid time_min time_max category epic content) ≡ (ps_added, content)
unfolding new_simple store_data
new_simple-look uid time_min time_max category epic [] = refl
new_simple-look uid time_min time_max category epic (c ∷ content) = refl

end_process-look :
    (time : ℕ) (a : SimpleData) → some (look (Data.end_process time a)) ≡ end_view (some (look a))
unfolding Data.end_process set_status
end_process-look time a = ground arith

-- The operations on the auctions.
find-adjust :
    (k j : ℕ) (f : SimpleData → SimpleData) (l : List SimpleData)
    → ((a : SimpleData) → (f a).uid ≡ a.uid)
    → find key k (adjust key j f l) ≡ (if j == k then Option.map f (find key k l) else find key k l)
unfolding find adjust
find-adjust k j f [] h = ground arith
find-adjust k j f (a ∷ rest) h = ground (arith, h a, find-adjust k j f rest h)

find_above :
    (k j : ℕ) (l : List SimpleData) → (j == k) ≡ true → AllAbove key j l → find key k l ≡ none
unfolding find
find_above k j [] e h = refl
find_above k j (a ∷ rest) e h = ground (arith, find_above k j rest e h.1)

uid-begin_process : (a : SimpleData) → (Data.begin_process a).uid ≡ a.uid
unfolding Data.begin_process
uid-begin_process a = ground arith

begin_process-look :
    (a : SimpleData)
    → is_in_final_state a ≡ false
    → some (look (Data.begin_process a)) ≡ some (ps_not_processed, a.raw_data)
unfolding Data.begin_process
begin_process-look a h = rw (h) refl

view-begin_each :
    (k : ℕ) (l : List SimpleData)
    → IsOrdered key l
    → view_of (find key k (begin_each is_in_final_state Data.begin_process l))
      ≡ begin_view (view_of (find key k l))
unfolding find begin_each
view-begin_each k [] o = refl
view-begin_each k (a ∷ rest) o = elim (Bool-cases (is_in_final_state a)) [
  | inl f ↦ elim (Bool-cases (a.uid == k)) [
    | inl e ↦ rw (f, e) (view-begin_each k rest o.1 ∙ rw (find_above k a.uid rest e o.0, f) refl)
    | inr e ↦ rw (f, e) (view-begin_each k rest o.1)
  ]
  | inr f ↦ elim (Bool-cases (a.uid == k)) [
    | inl e ↦ rw (f, uid-begin_process a, e, f) (begin_process-look a f)
    | inr e ↦ rw (f, uid-begin_process a, e) (view-begin_each k rest o.1)
  ]
]

view-end_each :
    (k : ℕ) (l : List SimpleData) (times : List CategoryTime)
    → view_of (find key k (end_each end_auction l times).0) ≡ end_view (view_of (find key k l))
unfolding find end_each
view-end_each k [] times = refl
view-end_each k (a ∷ rest) times =
    let time = get_estimated_category_end_time a.category times in
    elim (Bool-cases (a.uid == k)) [
      | inl e ↦ rw (uid-end_process a time, e) (end_process-look time a)
      | inr e ↦ rw (uid-end_process a time, e) (view-end_each k rest (touch a.category times))
    ]

uid-do_update :
    (time epic : ℕ) (content : Bytes) (a : SimpleData) → (do_update time epic content a).uid ≡ a.uid
unfolding do_update store_data set_status
uid-do_update time epic content a = ground arith

uid-new_simple :
    (uid time_min time_max category epic : ℕ) (content : Bytes)
    → (new_simple uid time_min time_max category epic content).uid ≡ uid
unfolding new_simple store_data
uid-new_simple uid time_min time_max category epic content = ground arith

-- An auction that is found is updated, another is made.
module _ (m : FlatMap SimpleData key) (k : ℕ) (r : Result) (w : Writer SimpleData) where
  abbrev added_if : Option SimpleData → Writer SimpleData
  added_if found = add_or_update m r.uid r.time r.category r.epic r.content w found

  abbrev added : Writer SimpleData
  added = added_if (find key r.uid w.auctions)

  abbrev made : SimpleData
  made =
      new_simple r.uid
        (get_estimated_previous_category_begin_time r.category w.category_time_manager) r.time
        r.category r.epic r.content

  made_uid : made.uid ≡ r.uid
  made_uid = uid-new_simple r.uid _ r.time r.category r.epic r.content

  updated_lem : find key k (adjust key r.uid (do_update r.time r.epic r.content) w.auctions) ≡ (
      if r.uid == k
      then Option.map (do_update r.time r.epic r.content) (find key k w.auctions)
      else find key k w.auctions)
  updated_lem =
      find-adjust k r.uid (do_update r.time r.epic r.content) w.auctions
        (uid-do_update r.time r.epic r.content)

  same_key :
      {o : Option SimpleData}
      → find key r.uid w.auctions ≡ o
      → (r.uid == k) ≡ true
      → find key k w.auctions ≡ o
  same_key e same = ap (λ u. find key u w.auctions) (sym ((==_iff r.uid k).0 same)) ∙ e

  made_free : find key r.uid w.auctions ≡ none → find key made.uid w.auctions ≡ none
  made_free e = ap (λ u. find key u w.auctions) made_uid ∙ e

  inserted :
      find key r.uid w.auctions ≡ none → add_auction m made w.auctions ≡ m.insert made w.auctions
  unfolding add_auction
  inserted e = rw (made_free e) refl

  seen_here : View
  seen_here = if r.uid == k then see r.content (view k w) else view k w

  view_found :
      (a : SimpleData) → find key r.uid w.auctions ≡ some a → view k (added_if (some a)) ≡ seen_here
  unfolding seen_here
  view_found a e = elim (Bool-cases (r.uid == k)) [
    | inl same ↦ rw (updated_lem, same, same_key e same) (do_update-look r.time r.epic r.content a)
    | inr other ↦ rw (updated_lem, other) refl
  ]

  inserted_lem :
      find key r.uid w.auctions ≡ none
      → find key k (m.insert made w.auctions)
        ≡ (if r.uid == k then some made else find key k w.auctions)
  inserted_lem e =
      m.find-insert made w.auctions (made_free e) k
      ∙ ap (λ u. if u == k then some made else find key k w.auctions) made_uid

  made_lem : some (look made) ≡ see r.content none
  made_lem = ap some (new_simple-look r.uid _ r.time r.category r.epic r.content)

  view_new : find key r.uid w.auctions ≡ none → view k (added_if none) ≡ seen_here
  unfolding seen_here
  view_new e =
      ap (λ l. view_of (find key k l)) (inserted e)
      ∙ (ap view_of (inserted_lem e) ∙ elim (Bool-cases (r.uid == k)) [
        | inl same ↦ rw (same, same_key e same) made_lem
        | inr other ↦ rw (other) refl
      ])

  view_if :
      (o : Option SimpleData) → find key r.uid w.auctions ≡ o → view k (added_if o) ≡ seen_here
  view_if none e = view_new e
  view_if (some a) e = view_found a e

  view-add_auction_info :
      view k (add_auction_info m r.uid r.time r.category r.epic r.content w)
      ≡ (if r.uid == k then see r.content (view k w) else view k w)
  unfolding add_auction_info seen_here
  view-add_auction_info =
      ap (λ o. view k (added_if o)) refl ∙ view_if (find key r.uid w.auctions) refl

view-search_all :
    (m : FlatMap SimpleData key) (k : ℕ) (results : List Result) (w : Writer SimpleData)
    → view k (search_all m results w) ≡ see_all k results (view k w)
view-search_all m k [] w = refl
view-search_all m k (r ∷ rest) w =
    view-search_all m k rest (add_auction_info m r.uid r.time r.category r.epic r.content w)
    ∙ ap (see_all k rest) (view-add_auction_info m k r w)

-- After a round an auction is seen as if its uid had been followed alone.
pub view-round :
    (m : FlatMap SimpleData key) (k : ℕ) (results : List Result) (w : Writer SimpleData)
    → IsOrdered key w.auctions
    → view k (round m results w) ≡ next_view k results (view k w)
unfolding round end_process begin_process
view-round m k results w o =
    let begun = begin_process w in
    let searched = search_all m results begun in
    view-end_each k searched.auctions searched.category_time_manager
    ∙ ap end_view (
        view-search_all m k results begun ∙ ap (see_all k results) (view-begin_each k w.auctions o))
