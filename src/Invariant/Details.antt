-- ===== src/Invariant/Details.antt =====
-- Databases in which the connection details of a chain have both of their channels.
use ibc_solo_machine.Base.{
  Bool, true, false, Option, none, some, ◌∷◌, Text, text_eq, ◌≡◌, refl, sym, ◌∙◌, subst, arith,
  some-injective, Bool-cases, inl, inr, ◌⊎◌, if◌then◌else◌, if_true, if_false,
}
use ibc_solo_machine.Chain.{RawChain, ConnectionDetails}
use ibc_solo_machine.Database.{Database, empty}
use ibc_solo_machine.Store.Query.{find_row, update_rows, find_row-update_rows}
use ibc_solo_machine.Store.Chains.{row_id}
use ibc_solo_machine.Store.Frames.{HasChannels}

-- The details of a row, if it has some, have both channels.
abbrev pub Whole : RawChain → Type 0
Whole row =
    (details : ConnectionDetails) → row.connection_details ≡ some details → HasChannels details

abbrev pub Complete : Database → Type 0
Complete d = (k : Text) (row : RawChain) → find_row row_id k d.chains ≡ some row → Whole row

pub Complete-empty : Complete empty
unfolding find_row
Complete-empty k row e = ground (arith, e)

pub Complete-insert :
    (row : RawChain) (d : Database)
    → row.connection_details ≡ none
    → Complete d
    → Complete (record d { chains = row ∷ d.chains })
unfolding find_row
Complete-insert row d p c k r e details q = elim (Bool-cases (text_eq row.id k)) [
  | inl b ↦ ground (arith, p, q, sym (if_true _ _ _ b) ∙ e)
  | inr b ↦ c k r (sym (if_false _ _ _ b) ∙ e) details q
]

-- A row that is found after an update is one from before, or what `f` makes of it.
found_before :
    (f : RawChain → RawChain) (b : Bool) (r q : RawChain)
    → (if b then some (f r) else some r) ≡ some q
    → (q ≡ f r) ⊎ (q ≡ r)
found_before f true r q e = inl (sym (some-injective e))
found_before f false r q e = inr (sym (some-injective e))

Whole-found :
    (f : RawChain → RawChain) (k : Text) (o : Option RawChain) (q : RawChain)
    → ((r : RawChain) → Whole r → Whole (f r))
    → ((r : RawChain) → o ≡ some r → Whole r)
    → (elim o [ none ↦ none | some r ↦ if text_eq r.id k then some (f r) else some r ]) ≡ some q
    → Whole q
Whole-found f k none q keeps whole e = ground (arith, e)
Whole-found f k (some r) q keeps whole e = elim (found_before f (text_eq r.id k) r q e) [
  | inl p ↦ subst Whole (sym p) (keeps r (whole r refl))
  | inr p ↦ subst Whole (sym p) (whole r refl)
]

pub Complete-update :
    (f : RawChain → RawChain) (k : Text) (d : Database)
    → ((r : RawChain) → row_id (f r) ≡ row_id r)
    → ((r : RawChain) → Whole r → Whole (f r))
    → Complete d
    → Complete (record d { chains = update_rows row_id f k d.chains })
Complete-update f k d same keeps c j q e =
    Whole-found f k (find_row row_id j d.chains) q keeps (c j)
      (sym (find_row-update_rows row_id f k j d.chains same) ∙ e)
