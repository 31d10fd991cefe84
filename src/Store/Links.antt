-- ===== src/Store/Links.antt =====
-- The statements on wg_hub_links: normHubPair, hubLinkSet, createWGHubLink, deleteWGHubLink.
use polar_wg.Base.{
  ℕ, suc, Bool, not, ◌&&◌, ◌||◌, none, some, List, [], ◌∷◌, ◌++◌, ltb, ◌==◌, if◌then◌else◌, find,
  any, select, map,
}
use polar_wg.Errors.{
  Result, ok, err, ◌>>◌, require, link_to_itself, no_rows, violates, hub_links_hub_fk,
}
use polar_wg.Store.Rows.{Hub, HubLink, Db}

unfoldable pub norm_hub_pair : ℕ → ℕ → ℕ × ℕ
norm_hub_pair a b = if ltb b a then (b, a) else (a, b)

abbrev pub other_end : ℕ → HubLink → ℕ
other_end hub_id l = if l.hub_a_id == hub_id then l.hub_b_id else l.hub_a_id

-- hubLinkSet: the set as the list of its members.
unfoldable pub hub_link_set : Db → ℕ → List ℕ
hub_link_set db hub_id =
    map (other_end hub_id) (select (λ l. l.hub_a_id == hub_id || l.hub_b_id == hub_id) db.links)

abbrev pub joins : ℕ → ℕ → HubLink → Bool
joins a b l = l.hub_a_id == a && l.hub_b_id == b

-- The INSERT … ON CONFLICT of createWGHubLink, on an ordered pair: the row that is there is returned
-- as it is. Both hubs must exist.
unfoldable pub upsert_link : ℕ → ℕ → ℕ → Db → Result (Db × HubLink)
upsert_link a b now db = do
  require (any (λ (h : Hub). h.id == a) db.hubs && any (λ (h : Hub). h.id == b) db.hubs)
      (violates hub_links_hub_fk)
  elim (find (joins a b) db.links) [
    | some l ↦ ok (db, l)
    | none ↦
        let l : HubLink = record {
          id = db.next_link;
          hub_a_id = a;
          hub_b_id = b;
          created_at = now;
        } in
        ok (record db { links = db.links ++ l ∷ []; next_link = suc db.next_link }, l)
  ]

-- createWGHubLink
unfoldable pub create_hub_link : ℕ → ℕ → ℕ → Db → Result (Db × HubLink)
create_hub_link a b now db =
    if a == b
    then err link_to_itself
    else (let (x, y) = norm_hub_pair a b in upsert_link x y now db)

-- deleteWGHubLink
unfoldable pub delete_hub_link : ℕ → Db → Result Db
delete_hub_link id db = do
  require (any (λ (l : HubLink). l.id == id) db.links) no_rows
  ok (record db { links = select (λ l. not (l.id == id)) db.links })
