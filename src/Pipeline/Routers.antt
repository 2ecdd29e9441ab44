-- ===== src/Pipeline/Routers.antt =====
-- What a step of a router does to the messages of one producer and type between its queues.
use message_router.Base.{
  not, ℕ, ◌≡◌, ◌≢◌, refl, ap, ◌∙◌, Bool, true, false, List, [], ◌∷◌, Option, none, some, ltb,
  if◌then◌else◌, length,
}
use message_router.Message.{Message, MessageType, Key}
use message_router.Queue.Client.{QueueApi}
use message_router.Router
use message_router.Router.{Router, pop_at, push_at, received, scanned, tried}
use message_router.Pipeline.Queues.{
  contents_at, PoppedAt, PoppedIf, pop_at-PoppedIf, PushedAt, push_at-PushedAt,
}
use message_router.Pipeline.Passing.{
  Aimed, around_router, Clear, taken-line, taken-Clear, given-line, given_elsewhere,
}
use message_router.Pipeline.{misses, router_gives_up}
use message_router.Pipeline.Pick.{
  pick, line, line-lose, Kept, kept_all, Kept-lost, Kept-trans, Allowed,
}

-- The messages of the key `k` come in at index `i`, and go out at the index that the rules give.
module _ (F : QueueApi Message) (choose : MessageType → ℕ) (k : Key) (i : ℕ) (lossy : Bool) where
  open F use {Q}

  -- After a step: the order is kept, with one message lost at most and where losses are possible
  -- only, and the key's messages stay on their way.
  pub record Hop (t : List Message) (s s' : Router.State F) : Type 0 where
    pub kept : Kept lossy (around_router F choose k i t s') (around_router F choose k i t s)
    pub aimed : Aimed choose s'.1
    pub ins_clear : Clear F choose k i s'.2 i
    pub outs_same :
        (j : ℕ) → j ≢ (choose k.1) → pick k (contents_at F s'.3 j) ≡ pick k (contents_at F s.3 j)

  received-Hop :
      (t : List Message) (r : Router) (ins ins' outs : List Q) (j : ℕ) (m : Message)
      → Clear F choose k i ins i
      → PoppedAt F ins j (some m, ins')
      → Allowed lossy (not (ltb (choose m.msg_type) (length outs)))
      → Hop t (r, Router.scanning j, ins, outs) (received F (choose m.msg_type) r j m ins' outs)
  received-Hop t r ins ins' outs j m clear e allowed =
      (elim (ltb (choose m.msg_type) (length outs))
          as (λ b.
            Allowed lossy (not b)
            → Hop t (r, Router.scanning j, ins, outs)
                (if b
                  then (r, Router.sending j m (choose m.msg_type) 0, ins', outs)
                  else (Router.count_error r, Router.scanning j, ins', outs))) [
                    | true ↦ λ ok. record {
                      kept = kept_all (
                          taken-line F choose k i t (pick k (contents_at F outs (choose k.1))) ins
                            ins' j m clear e);
                      aimed = refl;
                      ins_clear = taken-Clear F choose k i ins ins' j m clear e;
                      outs_same = λ j ne. refl;
                    }
                    | false ↦ λ ok. record {
                      kept =
                          Kept-trans lossy
                            (Kept-lost lossy ok (
                              line-lose (pick k (contents_at F outs (choose k.1))) (pick k (m ∷ []))
                                (pick k (contents_at F ins' i)) t))
                            (kept_all (
                              taken-line F choose k i t (pick k (contents_at F outs (choose k.1)))
                                ins ins' j m clear e));
                      aimed = tt;
                      ins_clear = taken-Clear F choose k i ins ins' j m clear e;
                      outs_same = λ j ne. refl;
                    }
                  ])
        allowed

  scanned-Hop :
      (t : List Message) (r : Router) (ins outs : List Q) (j : ℕ)
      (res : Option (Option Message × List Q))
      → Clear F choose k i ins i
      → PoppedIf F ins j res
      → Allowed lossy (misses choose outs res)
      → Hop t (r, Router.scanning j, ins, outs) (scanned F choose r j ins outs res)
  scanned-Hop t r ins outs j none clear e ok = record {
    kept = kept_all refl;
    aimed = tt;
    ins_clear = clear;
    outs_same = λ j ne. refl;
  }
  scanned-Hop t r ins outs j (some (none, ins')) clear e ok = record {
    kept =
        kept_all (ap (λ l. line (pick k (contents_at F outs (choose k.1))) [] (pick k l) t) (e i));
    aimed = tt;
    ins_clear = λ h ne. ap (pick k) (e h) ∙ clear h ne;
    outs_same = λ j ne. refl;
  }
  scanned-Hop t r ins outs j (some (some m, ins')) clear e ok =
      received-Hop t r ins ins' outs j m clear e ok

  tried-Hop :
      (t : List Message) (r : Router) (ins outs : List Q) (j : ℕ) (m : Message) (p retry : ℕ)
      (res : Bool × List Q)
      → Clear F choose k i ins i
      → p ≡ choose m.msg_type
      → PushedAt F outs p m res
      → Hop t (r, Router.sending j m p retry, ins, outs) (tried F r j m p retry ins res)
  tried-Hop t r ins outs j m p retry (true, outs') clear aim e = record {
    kept = kept_all (given-line F choose k i (pick k (contents_at F ins i)) t outs outs' p m aim e);
    aimed = tt;
    ins_clear = clear;
    outs_same = given_elsewhere F choose k i outs outs' p m aim e;
  }
  tried-Hop t r ins outs j m p retry (false, outs') clear aim e = record {
    kept = kept_all (
        ap (λ l. line (pick k l) (pick k (m ∷ [])) (pick k (contents_at F ins i)) t)
          (e (choose k.1)));
    aimed = aim;
    ins_clear = clear;
    outs_same = λ h ne. ap (pick k) (e h);
  }

  -- A step of a router keeps the order; it loses the message in its hand where it gives up.
  pub router-Hop :
      (t : List Message) (r : Router) (pc : Router.Pc) (ins outs : List Q)
      → Aimed choose pc
      → Clear F choose k i ins i
      → Allowed lossy (router_gives_up F choose ins outs pc)
      → Hop t (r, pc, ins, outs) (Router.loop_step F choose (r, pc, ins, outs))
  unfolding Router.loop_step
  router-Hop t r Router.checking ins outs aim clear allowed =
      elim r.life.running
        as (λ b.
          Hop t (r, Router.checking, ins, outs)
            (if b then (r, Router.scanning 0, ins, outs) else (r, Router.ended, ins, outs))) [
              | true ↦ record {
                kept = kept_all refl;
                aimed = tt;
                ins_clear = clear;
                outs_same = λ j ne. refl;
              }
              | false ↦ record {
                kept = kept_all refl;
                aimed = tt;
                ins_clear = clear;
                outs_same = λ j ne. refl;
              }
            ]
  router-Hop t r (Router.scanning j) ins outs aim clear allowed =
      scanned-Hop t r ins outs j (pop_at F ins j) clear (pop_at-PoppedIf F ins j) allowed
  router-Hop t r Router.ended ins outs aim clear allowed = record {
    kept = kept_all refl;
    aimed = tt;
    ins_clear = clear;
    outs_same = λ j ne. refl;
  }
  router-Hop t r (Router.sending j m p retry) ins outs aim clear allowed =
      (elim (ltb retry Router.max_retries)
          as (λ b.
            Allowed lossy (not b)
            → Hop t (r, Router.sending j m p retry, ins, outs)
                (if b
                  then tried F r j m p retry ins (push_at F outs p m)
                  else (Router.count_error r, Router.scanning j, ins, outs))) [
                    | true ↦ λ ok.
                        tried-Hop t r ins outs j m p retry (push_at F outs p m) clear aim
                          (push_at-PushedAt F outs p m)
                    | false ↦ λ ok. record {
                      kept = Kept-lost lossy ok (
                          line-lose (pick k (contents_at F outs (choose k.1))) (pick k (m ∷ []))
                            (pick k (contents_at F ins i)) t);
                      aimed = tt;
                      ins_clear = clear;
                      outs_same = λ j ne. refl;
                    }
                  ])
        allowed
