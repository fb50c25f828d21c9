-- ===== src/Lookup/Table/Race.antt =====
-- `create_or_get` in its atomic steps, with any number of callers at once: the look at the index, the
-- insertion into the primary map, and the claim of the index entry, each under one lock of a map.
pub mod Winner
use uturn.Common.{
  ℕ, ◌+◌, ◌≤◌, ◌<◌, ◌^◌, ◌≡◌, ◌≢◌, refl, sym, ap, ◌∙◌, Bool, true, false, Option, none, some, List,
  [], ◌∷◌, arith, All, nat_key, lookup, insert, erase, lookup-insert, lookup-insert_self,
  lookup-erase, subst, UniqueKeys, insert-UniqueKeys, erase-UniqueKeys, inl, inr, Option-cases,
}
use uturn.Common.Bytes.{Bytes, Str}
use uturn.Addr.{SocketAddr, socket_key}
use uturn.Clock.{add64}
use uturn.Lookup.Allocation.{Allocation, new_allocation}
use uturn.Lookup.Table.{AllocationTable, insert_new, claim_client}
use uturn.Lookup.Table.Clients.{client_of, client_at, IsIndexed}

-- A caller that has inserted its allocation: it is to claim the index entry, or it found the entry
-- taken by another allocation and is to discard its own.
pub data Phase : Type 0 where
  to_claim : Phase
  to_discard : ℕ → Phase

-- The table, the callers in the middle with the ids that they inserted, and what the callers that are
-- through were told.
pub record Race : Type 0 where
  pub table : AllocationTable
  pub callers : List (ℕ × (SocketAddr × Phase))
  pub told : List (SocketAddr × (ℕ × Bool))

-- One step of one caller. Whether the look at the index found nothing may be long ago at the
-- insertion, so that step has no condition but that the counter of ids has not come to its top.
pub data Step (r : Race) : Race → Type 0 where
  finds :
      (addr : SocketAddr) (id : ℕ)
      → lookup addr r.table.by_client ≡ some id
      → Step r (record r { told = (addr, (id, false)) ∷ r.told })
  inserts :
      (now : ℕ) (addr : SocketAddr) (username : Str) (lifetime : ℕ) (txn_id : Bytes)
      → r.table.next_id + 1 < 2 ^ 64
      → Step r (record r {
        table = insert_new now r.table addr username lifetime txn_id;
        callers = insert r.table.next_id (addr, to_claim) r.callers;
      })
  wins :
      (addr : SocketAddr) (id : ℕ)
      → lookup id r.callers ≡ some (addr, to_claim)
      → lookup addr r.table.by_client ≡ none
      → Step r (record {
        table = record r.table { by_client = insert addr id r.table.by_client };
        callers = erase id r.callers;
        told = (addr, (id, true)) ∷ r.told;
      })
  loses :
      (addr : SocketAddr) (id existing : ℕ)
      → lookup id r.callers ≡ some (addr, to_claim)
      → lookup addr r.table.by_client ≡ some existing
      → Step r (record r { callers = insert id (addr, to_discard existing) r.callers })
  discards :
      (addr : SocketAddr) (id existing : ℕ)
      → lookup id r.callers ≡ some (addr, to_discard existing)
      → Step r (record {
        table = record r.table { allocations = erase id r.table.allocations };
        callers = erase id r.callers;
        told = (addr, (existing, false)) ∷ r.told;
      })

pub data Reach (r : Race) : Race → Type 0 where
  start : Reach r r
  next : {s t : Race} → Reach r s → Step s t → Reach r t

-- What a caller in the middle knows: its allocation is in the table; and if it lost, to whom.
abbrev pub Knows : AllocationTable → ℕ → SocketAddr × Phase → Type 0
Knows t id (addr, to_claim) = client_at t id ≡ some addr
Knows t id (addr, to_discard existing) =
    (client_at t id ≡ some addr) × (lookup addr t.by_client ≡ some existing)

-- What holds between the steps: an index entry leads to its client's allocation, which no caller is
-- still about; each other allocation has a caller that is about it; and all were told what the index
-- says.
pub record IsFair (r : Race) : Type 0 where
  pub leads :
      (addr : SocketAddr) (id : ℕ)
      → lookup addr r.table.by_client ≡ some id
      → client_at r.table id ≡ some addr
  pub settled :
      (addr : SocketAddr) (id : ℕ)
      → lookup addr r.table.by_client ≡ some id
      → lookup id r.callers ≡ none
  pub listed :
      (addr : SocketAddr) (id : ℕ)
      → client_at r.table id ≡ some addr
      → lookup id r.callers ≡ none
      → lookup addr r.table.by_client ≡ some id
  pub knows : (id : ℕ) (c : SocketAddr × Phase) → lookup id r.callers ≡ some c → Knows r.table id c
  pub fresh : (id : ℕ) → r.table.next_id ≤ id → client_at r.table id ≡ none
  pub unique : UniqueKeys r.table.allocations
  pub answers : All (λ a. lookup a.0 r.table.by_client ≡ some a.1.0) r.told

Knows-client :
    (t : AllocationTable) (id : ℕ) (c : SocketAddr × Phase)
    → Knows t id c
    → client_at t id ≡ some c.0
Knows-client t id (addr, to_claim) k = k
Knows-client t id (addr, to_discard existing) k = k.0

-- What a caller knows stays, when no entry of the index changes and its own allocation stands.
Knows-later :
    (t t' : AllocationTable) (id : ℕ) (c : SocketAddr × Phase)
    → client_at t' id ≡ client_at t id
    → ((addr : SocketAddr) (i : ℕ)
        → lookup addr t.by_client ≡ some i
        → lookup addr t'.by_client ≡ some i)
    → Knows t id c
    → Knows t' id c
Knows-later t t' id (addr, to_claim) e keeps k = e ∙ k
Knows-later t t' id (addr, to_discard existing) e keeps k = (e ∙ k.0, keeps addr existing k.1)

answers-later :
    (t t' : AllocationTable) (told : List (SocketAddr × (ℕ × Bool)))
    → ((addr : SocketAddr) (i : ℕ)
        → lookup addr t.by_client ≡ some i
        → lookup addr t'.by_client ≡ some i)
    → All (λ a. lookup a.0 t.by_client ≡ some a.1.0) told
    → All (λ a. lookup a.0 t'.by_client ≡ some a.1.0) told
answers-later t t' [] keeps h = tt
answers-later t t' (a ∷ told) keeps (ha, h) = (keeps a.0 a.1.0 ha, answers-later t t' told keeps h)

module _ (r : Race) (h : IsFair r) where
  inserts-IsFair :
      (a : Allocation) (addr : SocketAddr)
      → a.client_addr ≡ addr
      → r.table.next_id + 1 < 2 ^ 64
      → IsFair (record r {
        table = record r.table {
          allocations = insert r.table.next_id a r.table.allocations;
          next_id = add64 r.table.next_id 1;
        };
        callers = insert r.table.next_id (addr, to_claim) r.callers;
      })
  inserts-IsFair a addr c room =
      let id = r.table.next_id in
      let vacant = h.fresh id (omega arith) in
      let t' : AllocationTable = record r.table {
        allocations = insert id a r.table.allocations;
        next_id = add64 id 1;
      } in
      record {
        leads =
            λ x i e. ground (arith, lookup-insert id i a r.table.allocations, h.leads x i, vacant);
        settled = λ x i e. ground (
          arith,
          lookup-insert id i (addr, to_claim) r.callers,
          h.settled x i,
          h.leads x i,
          vacant,
        );
        listed = λ x i e free. ground (
          arith,
          lookup-insert id i a r.table.allocations,
          lookup-insert id i (addr, to_claim) r.callers,
          h.listed x i,
        );
        knows = λ i k e. elim (nat_key.dec i id) [
          | yes p ↦
              let mine : ◌≡◌ {A = SocketAddr × Phase} (addr, to_claim) k =
                ground (arith, lookup-insert id i (addr, to_claim) r.callers, p, e) in
              subst (Knows t' i) mine
                (ground (arith, lookup-insert id i a r.table.allocations, p, c))
          | no p ↦
              Knows-later r.table t' i k
                (ground (arith, lookup-insert id i a r.table.allocations, p)) (λ _ _ x. x)
                (h.knows i k (ground (arith, lookup-insert id i (addr, to_claim) r.callers, p, e)))
        ];
        fresh = λ i later. ground (arith, lookup-insert id i a r.table.allocations, h.fresh i);
        unique = insert-UniqueKeys id a r.table.allocations h.unique;
        answers = h.answers;
      }

  wins-IsFair :
      (addr : SocketAddr) (id : ℕ)
      → lookup id r.callers ≡ some (addr, to_claim)
      → lookup addr r.table.by_client ≡ none
      → IsFair (record {
        table = record r.table { by_client = insert addr id r.table.by_client };
        callers = erase id r.callers;
        told = (addr, (id, true)) ∷ r.told;
      })
  wins-IsFair addr id mine vacant =
      let here = h.knows id (addr, to_claim) mine in
      let keeps =
        λ (x : SocketAddr) (j : ℕ) (e : lookup x r.table.by_client ≡ some j). kept x j e in
      let t' : AllocationTable = record r.table { by_client = insert addr id r.table.by_client } in
      record {
        leads =
            λ x i e. ground (arith, lookup-insert addr x id r.table.by_client, h.leads x i, here);
        settled = λ x i e. ground (
          arith,
          lookup-insert addr x id r.table.by_client,
          lookup-erase id i r.callers,
          h.settled x i,
        );
        listed = λ x i e free. ground (
          arith,
          lookup-insert addr x id r.table.by_client,
          lookup-erase id i r.callers,
          h.listed x i,
          here,
        );
        knows = λ i k e.
            Knows-later r.table t' i k refl keeps
              (h.knows i k (ground (arith, lookup-erase id i r.callers, e)));
        fresh = h.fresh;
        unique = h.unique;
        answers = (
          lookup-insert_self addr id r.table.by_client,
          answers-later r.table t' r.told keeps h.answers,
        );
      }
    where
      kept :
          (x : SocketAddr) (j : ℕ)
          → lookup x r.table.by_client ≡ some j
          → lookup x (insert addr id r.table.by_client) ≡ some j
      kept x j e = ground (arith, lookup-insert addr x id r.table.by_client, e, vacant)

  loses-IsFair :
      (addr : SocketAddr) (id existing : ℕ)
      → lookup id r.callers ≡ some (addr, to_claim)
      → lookup addr r.table.by_client ≡ some existing
      → IsFair (record r { callers = insert id (addr, to_discard existing) r.callers })
  loses-IsFair addr id existing mine taken =
      let here = h.knows id (addr, to_claim) mine in
      record {
        leads = h.leads;
        settled = λ x i e.
            ground (
              arith,
              lookup-insert id i (addr, to_discard existing) r.callers,
              h.settled x i,
              mine,
            );
        listed = λ x i e free.
            ground (arith, lookup-insert id i (addr, to_discard existing) r.callers, h.listed x i);
        knows = λ i k e. elim (nat_key.dec i id) [
          | yes p ↦
              let its : ◌≡◌ {A = SocketAddr × Phase} (addr, to_discard existing) k =
                ground (arith, lookup-insert id i (addr, to_discard existing) r.callers, p, e) in
              subst (Knows r.table i) its
                (subst (λ j. client_at r.table j ≡ some addr) (sym p) here, taken)
          | no p ↦
              h.knows i k
                (ground (arith, lookup-insert id i (addr, to_discard existing) r.callers, p, e))
        ];
        fresh = h.fresh;
        unique = h.unique;
        answers = h.answers;
      }

  discards-IsFair :
      (addr : SocketAddr) (id existing : ℕ)
      → lookup id r.callers ≡ some (addr, to_discard existing)
      → IsFair (record {
        table = record r.table { allocations = erase id r.table.allocations };
        callers = erase id r.callers;
        told = (addr, (existing, false)) ∷ r.told;
      })
  discards-IsFair addr id existing mine =
      let (here, taken) = h.knows id (addr, to_discard existing) mine in
      let t' : AllocationTable = record r.table { allocations = erase id r.table.allocations } in
      record {
        leads = λ x i e.
            ground (arith, lookup-erase id i r.table.allocations, h.leads x i, h.settled x i, mine);
        settled = λ x i e. ground (arith, lookup-erase id i r.callers, h.settled x i);
        listed = λ x i e free. ground (
          arith,
          lookup-erase id i r.table.allocations,
          lookup-erase id i r.callers,
          h.listed x i,
        );
        knows = λ i k e. elim (nat_key.dec i id) [
          | yes p ↦ ground (arith, lookup-erase id i r.callers, p, e)
          | no p ↦
              Knows-later r.table t' i k (ground (arith, lookup-erase id i r.table.allocations, p))
                (λ _ _ x. x) (h.knows i k (ground (arith, lookup-erase id i r.callers, p, e)))
        ];
        fresh = λ i later. ground (arith, lookup-erase id i r.table.allocations, h.fresh i);
        unique = erase-UniqueKeys id r.table.allocations h.unique;
        answers = (taken, h.answers);
      }

pub Step-IsFair : {r s : Race} → Step r s → IsFair r → IsFair s
unfolding insert_new new_allocation
Step-IsFair {r} (finds addr id e) h = record {
  leads = h.leads;
  settled = h.settled;
  listed = h.listed;
  knows = h.knows;
  fresh = h.fresh;
  unique = h.unique;
  answers = (e, h.answers);
}
Step-IsFair {r} (inserts now addr username lifetime txn_id room) h =
    inserts-IsFair r h (new_allocation r.table.next_id now addr username lifetime txn_id) addr refl
      room
Step-IsFair {r} (wins addr id mine vacant) h = wins-IsFair r h addr id mine vacant
Step-IsFair {r} (loses addr id existing mine taken) h = loses-IsFair r h addr id existing mine taken
Step-IsFair {r} (discards addr id existing mine) h = discards-IsFair r h addr id existing mine
