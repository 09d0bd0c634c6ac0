-- ===== src/Service/Response/Attributes.antt =====
-- Which attribute `extract_attribute` returns.
use ibc_solo_machine.Base.{
  true, false, List, [], ◌∷◌, ◌++◌, All, Option, none, some, Text, text_eq, ◌≡◌, refl, sym, ap, ◌∙◌,
  ◌⊎◌, inl, inr, ok, >>=-eq-ok, Bool-cases, arith, some-injective, if_true, if_false,
}
use ibc_solo_machine.Env.{AbciEvent}
use ibc_solo_machine.Service.Response.{get_attribute, extract_from, extract_attribute}

-- The events behind the last one of a kind, this event, and the events in front of it.
pub record LastOf (kind key value : Text) (events : List AbciEvent) : Type 0 where
  pub before : List AbciEvent
  pub last : AbciEvent
  pub after : List AbciEvent
  pub splits : events ≡ before ++ last ∷ after
  pub matches : text_eq last.kind kind ≡ true
  pub has_value : get_attribute last.attributes key ≡ ok value
  pub no_later : All (λ event. text_eq event.kind kind ≡ false) after

LastOf-cons :
    (kind key value : Text) (event : AbciEvent) (events : List AbciEvent)
    → LastOf kind key value events
    → LastOf kind key value (event ∷ events)
LastOf-cons kind key value event events l = record {
  before = event ∷ l.before;
  last = l.last;
  after = l.after;
  splits = ap (λ es. event ∷ es) l.splits;
  matches = l.matches;
  has_value = l.has_value;
  no_later = l.no_later;
}

-- The value comes from the events, or it was there before them and none of them is of the kind.
extract_from-last :
    (events : List AbciEvent) (kind key : Text) (found : Option Text) (value : Text)
    → extract_from events kind key found ≡ ok value
    → LastOf kind key value events
      ⊎ ((found ≡ some value) × All (λ event. text_eq event.kind kind ≡ false) events)
unfolding extract_from
extract_from-last [] kind key none value e = cc
extract_from-last [] kind key (some v) value e = inr (cc, tt)
extract_from-last (event ∷ events) kind key found value e =
    elim (Bool-cases (text_eq event.kind kind)) [
      | inl b ↦
          let (v, p, q) =
            >>=-eq-ok (get_attribute event.attributes key) _ (sym (if_true _ _ _ b) ∙ e) in
          inl (elim (extract_from-last events kind key (some v) value q) [
            | inl l ↦ LastOf-cons kind key value event events l
            | inr (same, none_later) ↦ record {
              before = [];
              last = event;
              after = events;
              splits = refl;
              matches = b;
              has_value = p ∙ ap ok (some-injective same);
              no_later = none_later;
            }
          ])
      | inr b ↦ elim (extract_from-last events kind key found value (sym (if_false _ _ _ b) ∙ e)) [
        | inl l ↦ inl (LastOf-cons kind key value event events l)
        | inr (same, none_later) ↦ inr (same, (b, none_later))
      ]
    ]

-- Where `extract_attribute` returns a value, it is the value of the attribute in the last event of
-- the kind.
pub extract_attribute_last :
    (events : List AbciEvent) (kind key value : Text)
    → extract_attribute events kind key ≡ ok value
    → LastOf kind key value events
unfolding extract_attribute
extract_attribute_last events kind key value e =
    elim (extract_from-last events kind key none value e) [
      | inl l ↦ l
      | inr (same, _) ↦ ground (arith, same)
    ]
