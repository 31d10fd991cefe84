-- ===== src/Admin/Links.antt =====
-- A published link between two hubs.
use polar_wg.Errors.{ok}
use polar_wg.Store.Rows.{Hub, Db, HubLink}
use polar_wg.Store.Links.{
  other_end, joins, hub_link_set, norm_hub_pair, upsert_link, create_hub_link,
}
use polar_wg.Base.{
  ◌∙◌, ◌&&◌, find-append_none, find-test, Option-cases, ◌≢◌, any, inr, some_inj, arith, ==_refl,
  inl, [], Bool-cases, ◌++◌, ◌∷◌, select, map, elem, true, some, ◌≡◌, ◌||◌, find, ◌==◌, List, ℕ,
}

elem-map-find :
    (n hub_id a b : ℕ) (ls : List HubLink) (l : HubLink)
    → find (joins a b) ls ≡ some l
    → (l.hub_a_id == hub_id || l.hub_b_id == hub_id) ≡ true
    → other_end hub_id l ≡ n
    → elem n
        (map (other_end hub_id) (select (λ l. l.hub_a_id == hub_id || l.hub_b_id == hub_id) ls))
      ≡ true
elem-map-find n hub_id a b [] l found touches e = cc
elem-map-find n hub_id a b (x ∷ ls) l found touches e = elim (Bool-cases (joins a b x)) [
  | inl t ↦ let same : x ≡ l = some_inj x l (rw t at found) in rw (same, touches, e, ==_refl n)
  | inr t ↦
      let later : elem n
            (map (other_end hub_id) (select (λ l. l.hub_a_id == hub_id || l.hub_b_id == hub_id) ls))
          ≡ true =
        elem-map-find n hub_id a b ls l (rw t at found) touches e in
      ground arith
]

-- The link that is returned stands in the table, first of its pair.
record Linked (a b : ℕ) (db : Db) (r : Db × HubLink) : Type 0 where
  pub there : find (joins a b) r.0.links ≡ some r.1
  pub ends : (r.1.hub_a_id ≡ a) × (r.1.hub_b_id ≡ b)
  pub hubs : (any (λ (h : Hub). h.id == a) r.0.hubs && any (λ (h : Hub). h.id == b) r.0.hubs) ≡ true

upsert_link-Linked :
    (a b now : ℕ) (db : Db) (r : Db × HubLink) → upsert_link a b now db ≡ ok r → Linked a b db r
unfolding upsert_link
upsert_link-Linked a b now db r done = elim (Option-cases (find (joins a b) db.links)) [
  | inr (l, e) ↦
      let hit : joins a b l ≡ true = find-test (joins a b) db.links l e in
      record {
        there = ground (arith, e);
        ends = (ground (arith, e, hit), ground (arith, e, hit));
        hubs = ground (arith, e);
      }
  | inl e ↦
      let l : HubLink = record {
        id = db.next_link;
        hub_a_id = a;
        hub_b_id = b;
        created_at = now;
      } in
      let new : find (joins a b) (db.links ++ l ∷ []) ≡ some l =
        find-append_none (joins a b) db.links (l ∷ []) e ∙ rw (==_refl a, ==_refl b) in
      record {
        there = ground (arith, e, new);
        ends = (ground (arith, e), ground (arith, e));
        hubs = ground (arith, e);
      }
]

create_hub_link-Linked :
    (a b now : ℕ) (db : Db) (r : Db × HubLink)
    → create_hub_link a b now db ≡ ok r
    → (a ≢ b) × Linked (norm_hub_pair a b).0 (norm_hub_pair a b).1 db r
unfolding create_hub_link
create_hub_link-Linked a b now db r done = elim (Bool-cases (a == b)) [
  | inl e ↦ ground (arith, e)
  | inr e ↦ (
    (λ same. ground arith),
    upsert_link-Linked (norm_hub_pair a b).0 (norm_hub_pair a b).1 now db r (rw e at done),
  )
]

-- A link that has been created is in the link set of both of its hubs.
pub create_hub_link-symmetric :
    (a b now : ℕ) (db : Db) (r : Db × HubLink)
    → create_hub_link a b now db ≡ ok r
    → (elem b (hub_link_set r.0 a) ≡ true) × (elem a (hub_link_set r.0 b) ≡ true)
unfolding norm_hub_pair hub_link_set
create_hub_link-symmetric a b now db r done =
    let (differ, j) = create_hub_link-Linked a b now db r done in
    (
      elem-map-find b a (norm_hub_pair a b).0 (norm_hub_pair a b).1 r.0.links r.1 j.there
          (ground (arith, j.ends.0, j.ends.1)) (ground (arith, j.ends.0, j.ends.1)),
      elem-map-find a b (norm_hub_pair a b).0 (norm_hub_pair a b).1 r.0.links r.1 j.there
          (ground (arith, j.ends.0, j.ends.1)) (ground (arith, j.ends.0, j.ends.1)),
    )

-- Asking for a created link again with the hubs in the other order changes nothing and returns
-- the link.
create_hub_link_again :
    (a b now later : ℕ) (db : Db) (r : Db × HubLink)
    → create_hub_link a b now db ≡ ok r
    → create_hub_link b a later r.0 ≡ ok r
unfolding create_hub_link upsert_link norm_hub_pair
create_hub_link_again a b now later db r done =
    let (differ, j) = create_hub_link-Linked a b now db r done in
    let pair : norm_hub_pair b a ≡ norm_hub_pair a b = ground (arith, differ) in
    ground (arith, j.there, j.hubs)
