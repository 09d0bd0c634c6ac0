-- ===== src/Store/IbcData/PayloadMap.antt =====
-- A map from paths to payloads, and the one that the table `ibc_data` is.
use ibc_solo_machine.Base.{
  true, false, Option, none, some, List, [], ◌∷◌, Text, Bytes, text_eq, is_some, ◌≡◌, refl, sym, ap,
  ◌∙◌, fun_ext, arith, if◌then◌else◌, Bool-cases, inl, inr, Result, ok, err, external,
  rows_affected, ok_or, ◌>>=◌ as ◌>>=ᵣ◌, text_eq_refl, text_eq_sound,
}
use ibc_solo_machine.Database.{Database, IbcData}
use ibc_solo_machine.Store.Query.{
  find_row, update_rows, count_rows, find_row-update_rows, count_rows-none, find_row_key,
}
use ibc_solo_machine.Store.IbcData.{row_path, set_payload}
use ibc_solo_machine.Invariant.Rows.{Distinct}

-- The promise of the table: each path has at most one payload.
abbrev pub PayloadMap : Type 0
PayloadMap = Text → Option Bytes

abbrev pub assign : Text → Bytes → PayloadMap → PayloadMap
assign path bytes m q = if text_eq path q then some bytes else m q

-- A path is set only once.
abbrev pub put_new : Text → Bytes → PayloadMap → Result (Unit {0}) × PayloadMap
put_new path bytes m = elim (m path) [
  | none ↦ (ok tt, assign path bytes m)
  | some b ↦ (err external, m)
]

-- Only a path that is set is replaced.
abbrev pub replace : Text → Bytes → PayloadMap → Result (Unit {0}) × PayloadMap
replace path bytes m = elim (m path) [
  | none ↦ (err rows_affected, m)
  | some b ↦ (ok tt, assign path bytes m)
]

module _ {A : Type 0} where
  abbrev pub look_up : (Bytes → Option A) → Text → PayloadMap → Result (Option A)
  look_up decode path m = elim (m path) [
    | none ↦ ok none
    | some b ↦ ok_or (decode b) external >>=ᵣ λ a. ok (some a)
  ]

abbrev pub payload_of : Option IbcData → Option Bytes
payload_of none = none
payload_of (some row) = some row.payload

abbrev pub view : Database → PayloadMap
view d path = payload_of (find_row row_path path d.ibc_data)

pub count_rows-Distinct :
    {A : Type 0} (key : A → Text) (k : Text) (rs : List A) (r : A)
    → Distinct key rs
    → find_row key k rs ≡ some r
    → count_rows key k rs ≡ 1
unfolding find_row count_rows
count_rows-Distinct key k [] r d e = ground (arith, e)
count_rows-Distinct key k (s ∷ rs) r d e = elim (Bool-cases (text_eq (key s) k)) [
  | inl b ↦
      let absent = ap (λ t. find_row key t rs) (sym (text_eq_sound (key s) k b)) ∙ d.0 in
      rw (b, count_rows-none key k rs absent) refl
  | inr b ↦ rw b (count_rows-Distinct key k rs r d.1 (ground (arith, e, b)))
]

pub view-insert :
    (path : Text) (bytes : Bytes) (d : Database)
    → view (record d { ibc_data = record { path = path; payload = bytes } ∷ d.ibc_data })
      ≡ assign path bytes (view d)
unfolding find_row
view-insert path bytes d =
    fun_ext (λ q. elim (Bool-cases (text_eq path q)) [ inl b ↦ rw b refl | inr b ↦ rw b refl ])

-- What is found under `q` after an update of `path`.
found_after :
    (path q : Text) (bytes : Bytes) (o : Option IbcData)
    → ((r : IbcData) → o ≡ some r → r.path ≡ q)
    → (text_eq path q ≡ true → is_some o ≡ true)
    → payload_of (elim o [
      | none ↦ none
      | some r ↦ if text_eq r.path path then some (set_payload bytes r) else some r
    ])
      ≡ (if text_eq path q then some bytes else payload_of o)
found_after path q bytes none key present = elim (Bool-cases (text_eq path q)) [
  | inl b ↦ ground (arith, present b)
  | inr b ↦ rw b refl
]
found_after path q bytes (some r) key present = elim (Bool-cases (text_eq path q)) [
  | inl b ↦
      let same = key r refl ∙ sym (text_eq_sound path q b) in rw (b, same, text_eq_refl path) refl
  | inr b ↦ elim (Bool-cases (text_eq r.path path)) [
    | inl c ↦
        let same = sym (text_eq_sound r.path path c) ∙ key r refl in
        ground (arith, b, ap (text_eq path) (sym same), text_eq_refl path)
    | inr c ↦ rw (b, c) refl
  ]
]

pub view-update :
    (path : Text) (bytes : Bytes) (d : Database) (row : IbcData)
    → find_row row_path path d.ibc_data ≡ some row
    → view (record d { ibc_data = update_rows row_path (set_payload bytes) path d.ibc_data })
      ≡ assign path bytes (view d)
view-update path bytes d row e = fun_ext (λ q.
    ap payload_of (find_row-update_rows row_path (set_payload bytes) path q d.ibc_data (λ r. refl))
    ∙ found_after path q bytes (find_row row_path q d.ibc_data)
        (λ r p. find_row_key row_path q d.ibc_data r p)
        (λ b.
          ap is_some (ap (λ t. find_row row_path t d.ibc_data) (sym (text_eq_sound path q b)) ∙ e)))

module _ (path : Text) (bytes : Bytes) (m : PayloadMap) where
  pub put_new-none : m path ≡ none → put_new path bytes m ≡ (ok tt, assign path bytes m)
  put_new-none e = rw (put_new, e) refl

  pub put_new-some : (b : Bytes) → m path ≡ some b → put_new path bytes m ≡ (err external, m)
  put_new-some b e = rw (put_new, e) refl

  pub replace-none : m path ≡ none → replace path bytes m ≡ (err rows_affected, m)
  replace-none e = rw (replace, e) refl

  pub replace-some :
      (b : Bytes) → m path ≡ some b → replace path bytes m ≡ (ok tt, assign path bytes m)
  replace-some b e = rw (replace, e) refl

found_other :
    (path : Text) (bytes : Bytes) (o : Option IbcData)
    → ((r : IbcData) → o ≡ some r → text_eq r.path path ≡ false)
    → payload_of (elim o [
      | none ↦ none
      | some r ↦ if text_eq r.path path then some (set_payload bytes r) else some r
    ])
      ≡ payload_of o
found_other path bytes none other = refl
found_other path bytes (some r) other = rw (other r refl) refl

other_path :
    (path q : Text) (d : Database) (r : IbcData)
    → find_row row_path path d.ibc_data ≡ none
    → find_row row_path q d.ibc_data ≡ some r
    → text_eq r.path path ≡ false
other_path path q d r absent found = elim (Bool-cases (text_eq r.path path)) [
  | inl c ↦
      let same = sym (text_eq_sound r.path path c) ∙ find_row_key row_path q d.ibc_data r found in
      ground (arith, sym absent ∙ (ap (λ t. find_row row_path t d.ibc_data) same ∙ found))
  | inr c ↦ c
]

pub view-same :
    (path : Text) (bytes : Bytes) (d : Database)
    → find_row row_path path d.ibc_data ≡ none
    → view (record d { ibc_data = update_rows row_path (set_payload bytes) path d.ibc_data })
      ≡ view d
view-same path bytes d e = fun_ext (λ q.
    ap payload_of (find_row-update_rows row_path (set_payload bytes) path q d.ibc_data (λ r. refl))
    ∙ found_other path bytes (find_row row_path q d.ibc_data) (λ r p. other_path path q d r e p))
