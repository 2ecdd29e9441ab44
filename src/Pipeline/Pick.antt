-- ===== src/Pipeline/Pick.antt =====
-- The messages of one producer and type in a list, and how they move along the pipeline.
use mathlib.Core.List.{Sublist, eq-nil_of_sublist-nil}
use mathlib.Core.List.Sublist
use message_router.Base.{
  ◌≡◌, refl, sym, ap, ◌∙◌, List, [], ◌∷◌, ◌++◌, append_assoc, if◌then◌else◌, inl, inr, Bool-cases,
  subst, Bool, true, false,
}
use message_router.Message.{Message, Key, key_of, key_beq}

-- The message as its producer made it.
abbrev pub origin : Message → Message
origin m = record m { processor_id = 0; processing_timestamp = 0 }

abbrev pub pick : Key → List Message → List Message
pick k [] = []
pick k (m ∷ ms) = if key_beq (key_of m) k then origin m ∷ pick k ms else pick k ms

pub pick-append : (k : Key) (xs ys : List Message) → pick k (xs ++ ys) ≡ pick k xs ++ pick k ys
pick-append k [] ys = refl
pick-append k (x ∷ xs) ys = elim (Bool-cases (key_beq (key_of x) k)) [
  | inl e ↦ rw e (ap (λ l. origin x ∷ l) (pick-append k xs ys))
  | inr e ↦ rw e (pick-append k xs ys)
]

-- A queue's messages `o`, those in a thread's hand `h`, and those of the queue before it `i`; `t`
-- is what comes behind. Oldest first.
abbrev pub line : List Message → List Message → List Message → List Message → List Message
line o h i t = o ++ (h ++ (i ++ t))

module _ (k : Key) where
  -- The thread takes the first message of its input.
  pub line-take :
      (o : List Message) (m : Message) (ms t : List Message)
      → line o (pick k (m ∷ [])) (pick k ms) t ≡ line o [] (pick k (m ∷ ms)) t
  line-take o m ms t =
      ap (λ l. o ++ l)
        (sym (append_assoc (pick k (m ∷ [])) (pick k ms) t)
          ∙ ap (λ l. l ++ t) (sym (pick-append k (m ∷ []) ms)))

  -- The thread puts the message in its hand behind its output.
  pub line-give :
      (os : List Message) (m : Message) (i t : List Message)
      → line (pick k (os ++ (m ∷ []))) [] i t ≡ line (pick k os) (pick k (m ∷ [])) i t
  line-give os m i t =
      ap (λ l. l ++ (i ++ t)) (pick-append k os (m ∷ []))
      ∙ append_assoc (pick k os) (pick k (m ∷ [])) (i ++ t)

-- The thread gives up the message in its hand.
pub line-lose : (o h i t : List Message) → Sublist (line o [] i t) (line o h i t)
line-lose o h i t = Sublist.append (Sublist.refl o) (lose h)
  where
    lose : (h : List Message) → Sublist (i ++ t) (h ++ (i ++ t))
    lose [] = Sublist.refl (i ++ t)
    lose (m ∷ ms) = Sublist.cons m (lose ms)

pub sublist_of_eq : {xs ys : List Message} → xs ≡ ys → Sublist xs ys
sublist_of_eq {xs} e = subst (Sublist xs) e (Sublist.refl xs)

-- What stands in the first list is all of the second, or less of it where losses are possible.
pub data Kept (lossy : Bool) (xs ys : List Message) : Type 0 where
  kept_all : xs ≡ ys → Kept lossy xs ys
  kept_less : lossy ≡ true → Sublist xs ys → Kept lossy xs ys

module _ (lossy : Bool) where
  -- A step that gives a message up is possible only with losses.
  abbrev pub Allowed : Bool → Type 0
  Allowed given_up = lossy ≡ false → given_up ≡ false

  pub Kept-lost : {xs ys : List Message} → Allowed true → Sublist xs ys → Kept lossy xs ys
  Kept-lost ok s = elim (Bool-cases lossy) [
    | inl e ↦ kept_less e s
    | inr e ↦ absurd (let no_way = ok e in cc)
  ]

  pub Kept-trans :
      {xs ys zs : List Message} → Kept lossy xs ys → Kept lossy ys zs → Kept lossy xs zs
  Kept-trans (kept_all e) (kept_all f) = kept_all (e ∙ f)
  Kept-trans (kept_all e) (kept_less b t) = kept_less b (Sublist.trans (sublist_of_eq e) t)
  Kept-trans (kept_less b s) (kept_all f) = kept_less b (Sublist.trans s (sublist_of_eq f))
  Kept-trans (kept_less b s) (kept_less c t) = kept_less b (Sublist.trans s t)

  pub Kept-append :
      {xs ys us vs : List Message}
      → Kept lossy xs ys
      → Kept lossy us vs
      → Kept lossy (xs ++ us) (ys ++ vs)
  Kept-append (kept_all e) (kept_all f) = kept_all (λ j. e j ++ f j)
  Kept-append (kept_all e) (kept_less b t) = kept_less b (Sublist.append (sublist_of_eq e) t)
  Kept-append (kept_less b s) (kept_all f) = kept_less b (Sublist.append s (sublist_of_eq f))
  Kept-append (kept_less b s) (kept_less c t) = kept_less b (Sublist.append s t)

  pub Kept-nil : {xs ys : List Message} → ys ≡ [] → Kept lossy xs ys → xs ≡ []
  Kept-nil none_there (kept_all e) = e ∙ none_there
  Kept-nil none_there (kept_less b s) =
      eq-nil_of_sublist-nil (Sublist.trans s (sublist_of_eq none_there))
