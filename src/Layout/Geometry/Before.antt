-- ===== src/Layout/Geometry/Before.antt =====
-- The entries that a history keeps of the places before a change take the entries of the change back.
use seat_service.Common.{
  ℕ, ◌≡◌, refl, sym, subst, ap, ◌∙◌, Bool, true, false, ◌&&◌, not, some, List, [], ◌∷◌, ◌++◌, map,
  any, ◌==◌, ==→eq, Has, ◌⊎◌, inl, inr, arith, Option-cases, append-Has, map-Has, false≢true,
}
use seat_service.Database.{Db, Section, Table, Seat}
use seat_service.Database.Keyed.{is_unique, eq_of_key}
use seat_service.Layout.Geometry.Entries.{
  LayoutGeometryKind, seat, table, section, Entry, GeometryChange, same_kind, seat_entry,
  table_entry, section_entry, change_entry, put_seat, put_table, put_section, map_get, is_of_kind,
}
use seat_service.Layout.Geometry.{is_unmatched, entries_before}
use seat_service.Layout.Geometry.Placed.{Paired, Takes, place_all, place_all-back}
use seat_service.Layout.Geometry.Effect.{is_seat, is_table, is_section, placed}

pub map_get-Has :
    (es : List Entry) (id : ℕ) (e : Entry) → map_get es id ≡ some e → Has e es × (e.id ≡ id)
map_get-Has [] id e h = cc
map_get-Has (f ∷ es) id e h = elim (Option-cases (map_get es id)) [
  | inl missed ↦ ground (arith, ==→eq f.id id)
  | inr (g, found) ↦ ground (arith, map_get-Has es id g found)
]

same_kind-eq : (k l : LayoutGeometryKind) → same_kind k l ≡ true → k ≡ l
same_kind-eq seat seat h = refl
same_kind-eq table table h = refl
same_kind-eq section section h = refl
same_kind-eq seat table h = cc
same_kind-eq seat section h = cc
same_kind-eq table seat h = cc
same_kind-eq table section h = cc
same_kind-eq section seat h = cc
same_kind-eq section table h = cc

matched :
    (records : List Entry) (chs : List GeometryChange) (ch : GeometryChange) (e : Entry)
    → any (λ ch. not (is_of_kind ch.kind (map_get records ch.id))) chs ≡ false
    → Has ch chs
    → map_get records ch.id ≡ some e
    → same_kind e.kind ch.kind ≡ true
matched records [] ch e h m g = absurd m
matched records (d ∷ chs) ch e h (inl q) g =
    let at : not (is_of_kind d.kind (map_get records d.id)) ≡ false = ground (arith, h) in
    let at' : not (is_of_kind ch.kind (map_get records ch.id)) ≡ false =
      subst (λ (c : GeometryChange). not (is_of_kind c.kind (map_get records c.id)) ≡ false) (sym q)
        at in
    ground (arith, rw g at at')
matched records (d ∷ chs) ch e h (inr m) g = matched records chs ch e (ground (arith, h)) m g

-- The entry of a change, with the place of a record.
abbrev pub kept : GeometryChange → Entry → Entry
kept ch e = record e { id = ch.id; kind = ch.kind }

entries_before-Paired :
    (P : Entry → Entry → Type 0) (records : List Entry) (chs : List GeometryChange)
    (bs : List Entry)
    → entries_before records chs ≡ some bs
    → ((ch : GeometryChange) (e : Entry)
        → Has ch chs
        → map_get records ch.id ≡ some e
        → P (change_entry ch) (kept ch e))
    → Paired P (map change_entry chs) bs
entries_before-Paired P records [] bs h k = subst (λ bs. Paired P [] bs) (value h) tt
  where
    value : some [] ≡ some bs → [] ≡ bs
    value e = cc
entries_before-Paired P records (ch ∷ chs) bs h k = elim (Option-cases (map_get records ch.id)) [
  | inl missed ↦ absurd (ground (arith, missed, h))
  | inr (e, found) ↦ elim (Option-cases (entries_before records chs)) [
    | inl missed ↦ absurd (ground (arith, missed, found, h))
    | inr (es, rest) ↦
        let same : kept ch e ∷ es ≡ bs = ground (arith, rest, found, h) in
        subst (λ bs. Paired P (change_entry ch ∷ map change_entry chs) bs) same
          (
            k ch e (inl refl) found,
            entries_before-Paired P records chs es rest (λ d f m. k d f (inr m)),
          )
  ]
]

-- The entry of a change, and the record of a row of the same kind.
module _ {Row : Type 0} (key : Row → ℕ) (of_row : Row → Entry) (is_kind : Entry → Bool)
    (put : Entry → Row → Row) (keeps : (e : Entry) (r : Row) → key (put e r) ≡ key r)
    (ids : (r : Row) → (of_row r).id ≡ key r)
    (back : (ch : GeometryChange) (r : Row)
      → put (kept ch (of_row r)) (put (change_entry ch) r) ≡ r)
    (same : (ch : GeometryChange) (e : Entry)
      → is_kind (kept ch e) ≡ is_kind (change_entry ch)) where
  record_Takes :
      (rows found : List Row) (ch : GeometryChange) (e : Entry)
      → is_unique key rows ≡ true
      → ((r : Row) → Has r found → Has r rows)
      → e.id ≡ ch.id
      → (is_kind (change_entry ch) ≡ true → Has e (map of_row found))
      → Takes key is_kind put keeps rows (change_entry ch) (kept ch e)
  record_Takes rows found ch e u sub i mine = (refl, same ch e, λ r m hit. taken r m hit)
    where
      taken :
          (r : Row)
          → Has r rows
          → (is_kind (change_entry ch) && key r == ch.id) ≡ true
          → put (kept ch e) (put (change_entry ch) r) ≡ r
      taken r m hit =
          let (s, n, from) = map-Has of_row found e (mine (ground (arith, hit))) in
          let k : key r ≡ ch.id = ==→eq (key r) ch.id (ground (arith, hit)) in
          let k' : key s ≡ ch.id = sym (ids s) ∙ ap (λ (e : Entry). e.id) (sym from) ∙ i in
          let one : s ≡ r = eq_of_key key rows s r u (sub s n) m (k' ∙ sym k) in
          ap (λ (e : Entry). put (kept ch e) (put (change_entry ch) r)) (from ∙ ap of_row one)
          ∙ back ch r

  rows-back :
      (records : List Entry) (rows found : List Row) (chs : List GeometryChange) (bs : List Entry)
      → is_unique key rows ≡ true
      → ((r : Row) → Has r found → Has r rows)
      → is_unique (λ e. e.id) (map change_entry chs) ≡ true
      → entries_before records chs ≡ some bs
      → ((ch : GeometryChange) (e : Entry)
          → Has ch chs
          → map_get records ch.id ≡ some e
          → is_kind (change_entry ch) ≡ true
          → Has e (map of_row found))
      → place_all key is_kind put keeps bs
          (place_all key is_kind put keeps (map change_entry chs) rows)
        ≡ rows
  rows-back records rows found chs bs ur sub u before mine =
      place_all-back key is_kind put keeps (map change_entry chs) bs rows u (
        entries_before-Paired (Takes key is_kind put keeps rows) records chs bs before
          (λ ch e m get.
            record_Takes rows found ch e ur sub (map_get-Has records ch.id e get).1
              (mine ch e m get)))

-- A record of a kind is of that kind's table.
module _ (a : List Seat) (b : List Table) (d : List Section) where
  abbrev pub records : List Entry
  records = map seat_entry a ++ (map table_entry b ++ map section_entry d)

  records_kind :
      (e : Entry)
      → Has e records
      → (Has e (map seat_entry a) × (e.kind ≡ seat))
        ⊎ ((Has e (map table_entry b) × (e.kind ≡ table))
            ⊎ (Has e (map section_entry d) × (e.kind ≡ section)))
  records_kind e m =
      elim (append-Has (map seat_entry a) (map table_entry b ++ map section_entry d) e m) [
        | inl n ↦
            let (r, _, from) = map-Has seat_entry a e n in inl (n, ap (λ (e : Entry). e.kind) from)
        | inr n ↦ elim (append-Has (map table_entry b) (map section_entry d) e n) [
          | inl n ↦
              let (r, _, from) = map-Has table_entry b e n in
              inr (inl (n, ap (λ (e : Entry). e.kind) from))
          | inr n ↦
              let (r, _, from) = map-Has section_entry d e n in
              inr (inr (n, ap (λ (e : Entry). e.kind) from))
        ]
      ]

  other_kind :
      (k l m : LayoutGeometryKind) → same_kind m k ≡ false → l ≡ m → same_kind l k ≡ true → ⊥
  other_kind k l m no_kind q h = false≢true (sym no_kind ∙ subst (λ l. same_kind l k ≡ true) q h)

  seat-Has : (e : Entry) → Has e records → same_kind e.kind seat ≡ true → Has e (map seat_entry a)
  seat-Has e m h = elim (records_kind e m) [
    | inl (n, _) ↦ n
    | inr (inl (_, i)) ↦ absurd (other_kind _ _ _ refl i h)
    | inr (inr (_, i)) ↦ absurd (other_kind _ _ _ refl i h)
  ]

  table-Has :
      (e : Entry) → Has e records → same_kind e.kind table ≡ true → Has e (map table_entry b)
  table-Has e m h = elim (records_kind e m) [
    | inl (_, i) ↦ absurd (other_kind _ _ _ refl i h)
    | inr (inl (n, _)) ↦ n
    | inr (inr (_, i)) ↦ absurd (other_kind _ _ _ refl i h)
  ]

  section-Has :
      (e : Entry) → Has e records → same_kind e.kind section ≡ true → Has e (map section_entry d)
  section-Has e m h = elim (records_kind e m) [
    | inl (_, i) ↦ absurd (other_kind _ _ _ refl i h)
    | inr (inl (_, i)) ↦ absurd (other_kind _ _ _ refl i h)
    | inr (inr (n, _)) ↦ n
  ]

  -- The entries before changes take the changes back in the three tables.
  pub placed-back :
      (db : Db) (chs : List GeometryChange) (bs : List Entry)
      → ((r : Seat) → Has r a → Has r db.seats)
      → ((r : Table) → Has r b → Has r db.tables)
      → ((r : Section) → Has r d → Has r db.sections)
      → is_unique (λ r. r.id) db.seats ≡ true
      → is_unique (λ r. r.id) db.tables ≡ true
      → is_unique (λ r. r.id) db.sections ≡ true
      → is_unique (λ e. e.id) (map change_entry chs) ≡ true
      → is_unmatched records chs ≡ false
      → entries_before records chs ≡ some bs
      → placed bs (placed (map change_entry chs) db) ≡ db
  placed-back db chs bs sa sb sd ua ub ud u matches kept_entries =
      rw
        (
          rows-back (λ (r : Seat). r.id) seat_entry is_seat put_seat (λ e r. refl) (λ r. refl)
              (λ ch r. refl) (λ ch e. refl) records db.seats a chs bs ua sa u kept_entries
              (λ ch e m get k.
                seat-Has e (map_get-Has records ch.id e get).0 (kind_of ch e seat m get k)),
          rows-back (λ (r : Table). r.id) table_entry is_table put_table (λ e r. refl) (λ r. refl)
              (λ ch r. refl) (λ ch e. refl) records db.tables b chs bs ub sb u kept_entries
              (λ ch e m get k.
                table-Has e (map_get-Has records ch.id e get).0 (kind_of ch e table m get k)),
          rows-back (λ (r : Section). r.id) section_entry is_section put_section (λ e r. refl)
              (λ r. refl) (λ ch r. refl) (λ ch e. refl) records db.sections d chs bs ud sd u
              kept_entries
              (λ ch e m get k.
                section-Has e (map_get-Has records ch.id e get).0 (kind_of ch e section m get k)),
        )
        refl
    where
      kind_of :
          (ch : GeometryChange) (e : Entry) (k : LayoutGeometryKind)
          → Has ch chs
          → map_get records ch.id ≡ some e
          → same_kind ch.kind k ≡ true
          → same_kind e.kind k ≡ true
      kind_of ch e k m found h =
          let all_match : any (λ ch. not (is_of_kind ch.kind (map_get records ch.id))) chs ≡ false =
            ground (arith, matches) in
          let q : e.kind ≡ ch.kind =
            same_kind-eq e.kind ch.kind (matched records chs ch e all_match m found) in
          subst (λ l. same_kind l k ≡ true) (sym q) h
