-- ===== src/Queue/Threads.antt =====
-- One producer thread and one consumer thread on a queue, interleaved at each access to what they
-- share. A step is one load or store of include/lockfree_queue.h; the loads of a thread's own index
-- see its own last store. Loads and stores take effect in one order (the release store of `tail_`
-- or `ready` that an acquire load sees brings what was written before it); the weaker orders of
-- the C++ memory model are not modelled.
pub mod Invariant
pub mod Keeping
pub mod Safety
pub mod Atomic
pub mod Linear
use message_router.Base.{ℕ, ◌≡◌, ◌≢◌, Bool, true, false, List, [], ◌∷◌, ◌++◌, some}
use message_router.Queue.Defs.{Spsc, init, write_item, write_ready, next_index}
use message_router.Queue.Slots.{item_at, ready_at}

-- Where the producer stands in `try_push`, with `item` and `current_tail`.
pub data PushPc {ℓ} (A : Type ℓ) : Type ℓ where
  outside : PushPc A  -- between two calls
  has_tail : A → ℕ → PushPc A  -- `tail_` is loaded
  has_room : A → ℕ → PushPc A  -- `head_` is loaded, and the queue is not full
  wrote : A → ℕ → PushPc A  -- `data` is written
  flagged : A → ℕ → PushPc A  -- `ready` is stored

-- Where the consumer stands in `try_pop`, with `current_head` and the copy.
pub data PopPc {ℓ} (A : Type ℓ) : Type ℓ where
  outside : PopPc A
  has_head : ℕ → PopPc A  -- `head_` is loaded
  has_items : ℕ → PopPc A  -- `tail_` is loaded, and the queue is not empty
  saw_ready : ℕ → PopPc A  -- `ready` is loaded, and true
  copied : ℕ → A → PopPc A  -- `data` is copied
  cleared : ℕ → A → PopPc A  -- `ready` is cleared

-- `sent` are the items of the calls of `try_push` that returned true, `received` those that
-- `try_pop` handed out, each in order.
pub record System {ℓ} (A : Type ℓ) : Type ℓ where
  pub q : Spsc A
  pub producer : PushPc A
  pub consumer : PopPc A
  pub sent : List A
  pub received : List A

module _ {ℓ} {A : Type ℓ} where
  pub data Step (k : ℕ) (s : System A) : System A → Type ℓ where
    push_call :
        (x : A)
        → s.producer ≡ PushPc.outside
        → Step k s (record s { producer = has_tail x s.q.tail })
    push_full :
        (x : A) (t : ℕ)
        → s.producer ≡ has_tail x t
        → next_index k t ≡ s.q.head
        → Step k s (record s { producer = PushPc.outside })
    push_room :
        (x : A) (t : ℕ)
        → s.producer ≡ has_tail x t
        → next_index k t ≢ s.q.head
        → Step k s (record s { producer = has_room x t })
    push_item :
        (x : A) (t : ℕ)
        → s.producer ≡ has_room x t
        → Step k s (record s {
          q = record (s.q) { buffer = write_item s.q.buffer t x };
          producer = wrote x t;
        })
    push_flag :
        (x : A) (t : ℕ)
        → s.producer ≡ wrote x t
        → Step k s (record s {
          q = record (s.q) { buffer = write_ready s.q.buffer t true };
          producer = flagged x t;
        })
    push_tail :
        (x : A) (t : ℕ)
        → s.producer ≡ flagged x t
        → Step k s (record s {
          q = record (s.q) { tail = next_index k t };
          producer = PushPc.outside;
          sent = s.sent ++ (x ∷ []);
        })
    pop_call : s.consumer ≡ PopPc.outside → Step k s (record s { consumer = has_head s.q.head })
    pop_empty :
        (h : ℕ)
        → s.consumer ≡ has_head h
        → h ≡ s.q.tail
        → Step k s (record s { consumer = PopPc.outside })
    pop_items :
        (h : ℕ)
        → s.consumer ≡ has_head h
        → h ≢ s.q.tail
        → Step k s (record s { consumer = has_items h })
    pop_unready :
        (h : ℕ)
        → s.consumer ≡ has_items h
        → ready_at s.q.buffer h ≡ false
        → Step k s (record s { consumer = PopPc.outside })
    pop_ready :
        (h : ℕ)
        → s.consumer ≡ has_items h
        → ready_at s.q.buffer h ≡ true
        → Step k s (record s { consumer = saw_ready h })
    pop_copy :
        (h : ℕ) (x : A)
        → s.consumer ≡ saw_ready h
        → item_at s.q.buffer h ≡ some x
        → Step k s (record s { consumer = copied h x })
    pop_clear :
        (h : ℕ) (x : A)
        → s.consumer ≡ copied h x
        → Step k s (record s {
          q = record (s.q) { buffer = write_ready s.q.buffer h false };
          consumer = cleared h x;
        })
    pop_head :
        (h : ℕ) (x : A)
        → s.consumer ≡ cleared h x
        → Step k s (record s {
          q = record (s.q) { head = next_index k h };
          consumer = PopPc.outside;
          received = s.received ++ (x ∷ []);
        })

  -- A new queue, before the first call.
  abbrev pub started : ℕ → A → System A
  started k blank = record {
    q = init k blank;
    producer = PushPc.outside;
    consumer = PopPc.outside;
    sent = [];
    received = [];
  }

  -- The states that some interleaving leads to from `s`.
  pub data Steps (k : ℕ) (s : System A) : System A → Type ℓ where
    here : Steps k s s
    next : {t u : System A} → Steps k s t → Step k t u → Steps k s u
