-- ===== src/Pipeline/Passing.antt =====
-- What a router takes and gives, of one producer and type.
use native.Mathlib.Decide.{ℕ_discrete}
use message_router.Base.{
  ℕ, ◌≡◌, ◌≢◌, refl, sym, ap, subst, ◌∙◌, true, List, [], ◌∷◌, ◌++◌, some, inl, inr, Bool-cases,
  append-nil,
}
use message_router.Message.{Message, MessageType, Key, key_of, key_beq, key_beq_iff}
use message_router.Queue.Client.{QueueApi}
use message_router.Router
use message_router.Router.{Router, pop_at, push_at, received, scanned, tried}
use message_router.Pipeline.Queues.{contents_at, PoppedAt, PushedAt}
use message_router.Pipeline.Pick.{pick, pick-append, line, line-take, line-give}

-- A message in the router's hand goes to the queue that the rules give.
abbrev pub Aimed : (MessageType → ℕ) → Router.Pc → Type 0
Aimed choose (Router.sending i m p retry) = p ≡ choose m.msg_type
Aimed choose _ = Unit

abbrev pub held : Key → Router.Pc → List Message
held k (Router.sending i m p retry) = pick k (m ∷ [])
held k _ = []

-- A message of another key is not picked.
pick_other :
    (choose : MessageType → ℕ) (k : Key) (m : Message)
    → choose m.msg_type ≢ choose k.1
    → pick k (m ∷ []) ≡ []
pick_other choose k m ne = elim (Bool-cases (key_beq (key_of m) k)) [
  | inl e ↦
      let same : key_of m ≡ k = (key_beq_iff (key_of m) k).0 e in
      absurd (ne (ap (λ (x : Key). choose x.1) same))
  | inr e ↦ rw e refl
]

pub nil_left : (xs ys : List Message) → xs ++ ys ≡ [] → (xs ≡ []) × (ys ≡ [])
nil_left [] ys e = (refl, e)
nil_left (x ∷ xs) ys e = cc

-- The messages of the key `k` come in at index `i`, and go out at the index that the rules give.
module _ (F : QueueApi Message) (choose : MessageType → ℕ) (k : Key) (i : ℕ) where
  open F use {Q}

  abbrev pub home : ℕ
  home = choose k.1

  -- From the key's output queue to its input queue.
  abbrev pub around_router : List Message → Router.State F → List Message
  around_router t (r, pc, ins, outs) =
      line (pick k (contents_at F outs home)) (held k pc) (pick k (contents_at F ins i)) t

  -- The key's messages are at no other index.
  abbrev pub Clear : List Q → ℕ → Type 0
  Clear qs h = (j : ℕ) → j ≢ h → pick k (contents_at F qs j) ≡ []

  -- What is taken at another index is not of the key, nor is what stays there.
  taken_elsewhere :
      (ins ins' : List Q) (j : ℕ) (m : Message)
      → pick k (contents_at F ins j) ≡ []
      → contents_at F ins j ≡ m ∷ contents_at F ins' j
      → (pick k (m ∷ []) ≡ []) × (pick k (contents_at F ins' j) ≡ [])
  taken_elsewhere ins ins' j m none_here first =
      nil_left (pick k (m ∷ [])) (pick k (contents_at F ins' j))
        (sym (pick-append k (m ∷ []) (contents_at F ins' j)) ∙ ap (pick k) (sym first) ∙ none_here)

  pub taken-line :
      (t o : List Message) (ins ins' : List Q) (j : ℕ) (m : Message)
      → Clear ins i
      → PoppedAt F ins j (some m, ins')
      → line o (pick k (m ∷ [])) (pick k (contents_at F ins' i)) t
        ≡ line o [] (pick k (contents_at F ins i)) t
  taken-line t o ins ins' j m clear (first, rest) = elim (ℕ_discrete j i) [
    | yes e ↦
        line-take k o m (contents_at F ins' i) t
        ∙ ap (λ l. line o [] (pick k l) t)
            (sym (subst (λ h. contents_at F ins h ≡ m ∷ contents_at F ins' h) e first))
    | no ne ↦
        ap (λ h. line o h (pick k (contents_at F ins' i)) t)
          (taken_elsewhere ins ins' j m (clear j ne) first).0
        ∙ ap (λ l. line o [] (pick k l) t) (rest i (λ e. ne (sym e)))
  ]

  pub taken-Clear :
      (ins ins' : List Q) (j : ℕ) (m : Message)
      → Clear ins i
      → PoppedAt F ins j (some m, ins')
      → Clear ins' i
  taken-Clear ins ins' j m clear (first, rest) h away = elim (ℕ_discrete h j) [
    | yes e ↦
        let ne : j ≢ i = λ e'. away (e ∙ e') in
        subst (λ h. pick k (contents_at F ins' h) ≡ []) (sym e)
          (taken_elsewhere ins ins' j m (clear j ne) first).1
    | no ne ↦ ap (pick k) (rest h ne) ∙ clear h away
  ]

  -- What is sent goes behind the key's output, or is not of the key.
  pub given-line :
      (is t : List Message) (outs outs' : List Q) (p : ℕ) (m : Message)
      → p ≡ choose m.msg_type
      → PushedAt F outs p m (true, outs')
      → line (pick k (contents_at F outs' home)) [] is t
        ≡ line (pick k (contents_at F outs home)) (pick k (m ∷ [])) is t
  given-line is t outs outs' p m aim (last, rest) = elim (ℕ_discrete p home) [
    | yes e ↦
        ap (λ l. line (pick k l) [] is t)
          (subst (λ h. contents_at F outs' h ≡ contents_at F outs h ++ (m ∷ [])) e last)
        ∙ line-give k (contents_at F outs home) m is t
    | no ne ↦
        ap (λ l. line (pick k l) [] is t) (rest home (λ e. ne (sym e)))
        ∙ ap (λ h. line (pick k (contents_at F outs home)) h is t)
            (sym (pick_other choose k m (λ e. ne (aim ∙ e))))
  ]

  pub given_elsewhere :
      (outs outs' : List Q) (p : ℕ) (m : Message)
      → p ≡ choose m.msg_type
      → PushedAt F outs p m (true, outs')
      → (j : ℕ) → j ≢ home
      → pick k (contents_at F outs' j) ≡ pick k (contents_at F outs j)
  given_elsewhere outs outs' p m aim (last, rest) j away = elim (ℕ_discrete j p) [
    | yes e ↦
        subst (λ h. pick k (contents_at F outs' h) ≡ pick k (contents_at F outs h)) (sym e)
          (ap (pick k) last
            ∙ pick-append k (contents_at F outs p) (m ∷ [])
            ∙ ap (λ h. pick k (contents_at F outs p) ++ h)
                (pick_other choose k m (λ e'. away (e ∙ aim ∙ e')))
            ∙ append-nil (pick k (contents_at F outs p)))
    | no ne ↦ ap (pick k) (rest j ne)
  ]
