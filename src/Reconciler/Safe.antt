-- ===== src/Reconciler/Safe.antt =====
-- What stays true of the pools of a Subnet in a run of Reconcile, whatever calls the server refuses.
use virtnet.Prelude.{
  ◌+◌, ◌≤◌, ◌≡◌, sym, ap, ◌∙◌, subst, inl, inr, false, List, [], ◌∷◌, ◌++◌, arith, Text, text_eq,
  keys, All, Bool-cases,
}
use virtnet.Api.{IpPool, IpPoolStatus, ObjectMeta, Subnet}
use virtnet.Convert.{Json}
use virtnet.Cluster.{Cluster, set_status, owned_by, update_pool_status}
use virtnet.Cluster.Owned.{AreNamed, owned_by-set_status, set_status-among, AreNamed-owned_by}
use virtnet.Cluster.Triples.{Post, Post-weaken}
use virtnet.Cluster.Refusals.{SamePools, HasPools, update_pool_status-Post}
use virtnet.Reconciler.Resized.{created}
use virtnet.Inventory.{Shelf, count, all_addresses}
use virtnet.Inventory.Refines.{Represents, AllRepresent, AllRepresent-one, AllRepresent-join}
use virtnet.Inventory.Unique.{count-one}

pub AreNamed-left : (ps qs : List IpPool) → AreNamed (ps ++ qs) → AreNamed ps
AreNamed-left [] qs h = tt
AreNamed-left (p ∷ ps) qs (new, h) = (All-left ps qs new, AreNamed-left ps qs h)
  where
    All-left :
        (ps qs : List IpPool)
        → All (λ (q : IpPool). text_eq p.meta.name q.meta.name ≡ false) (ps ++ qs)
        → All (λ (q : IpPool). text_eq p.meta.name q.meta.name ≡ false) ps
    All-left [] qs h = tt
    All-left (q ∷ ps) qs (d, h) = (d, All-left ps qs h)

-- Names do not change with a status.
AreNamed-status :
    (name : Text) (status : IpPoolStatus) (ps more : List IpPool)
    → AreNamed (ps ++ more)
    → AreNamed (set_status name status ps ++ more)
unfolding set_status
AreNamed-status name status [] more h = h
AreNamed-status name status (p ∷ ps) more (new, h) = elim (Bool-cases (text_eq p.meta.name name)) [
  | inl same ↦ rw same (All-status ps new, AreNamed-status name status ps more h)
  | inr other ↦ rw other (All-status ps new, AreNamed-status name status ps more h)
]
  where
    All-status :
        (qs : List IpPool)
        → All (λ (q : IpPool). text_eq p.meta.name q.meta.name ≡ false) (qs ++ more)
        → All
            (λ (q : IpPool). text_eq p.meta.name q.meta.name ≡ false)
            (set_status name status qs ++ more)
    All-status [] k = k
    All-status (q ∷ qs) (d, k) = elim (Bool-cases (text_eq q.meta.name name)) [
      | inl same ↦ rw same (d, All-status qs k)
      | inr other ↦ rw other (d, All-status qs k)
    ]

module _ (json : Json) (s : Subnet) where
  -- The pools of the Subnet, and addresses that are on the way to them: no address is there twice,
  -- and all stored pools have different names, also from those that the server will give.
  pub record At (ps : List IpPool) (more : List Text) (c : Cluster) : Type 0 where
    pub listed : owned_by s.meta.name c.pools ≡ ps
    pub named : AreNamed (c.pools ++ created s c.names)
    pub shelves : List Shelf
    pub represent : AllRepresent json ps shelves
    pub room : (x : Text) → count x more + count x (all_addresses shelves) ≤ 1

  pub At-named : (ps : List IpPool) (more : List Text) (c : Cluster) → At ps more c → AreNamed ps
  At-named ps more c h =
      subst AreNamed h.listed
        (AreNamed-owned_by s.meta.name c.pools (AreNamed-left c.pools (created s c.names) h.named))

  abbrev pub IsSafe : Cluster → Type 0
  IsSafe c = (ps : List IpPool) × At ps [] c

  pub At-IsSafe : (ps : List IpPool) (more : List Text) (c : Cluster) → At ps more c → IsSafe c
  unfolding count
  At-IsSafe ps more c h = (
    ps,
    record {
      listed = h.listed;
      named = h.named;
      shelves = h.shelves;
      represent = h.represent;
      room = λ x. omega (arith, h.room x);
    },
  )

  pub At-same :
      (ps : List IpPool) (more : List Text) (c c1 : Cluster)
      → At ps more c
      → SamePools c c1
      → At ps more c1
  At-same ps more c c1 h (pools, names) = record {
    listed = ap (owned_by s.meta.name) pools ∙ h.listed;
    named =
        subst (λ (ns : List Text). AreNamed (c1.pools ++ created s ns)) (sym names)
          (subst (λ (qs : List IpPool). AreNamed (qs ++ created s c.names)) (sym pools) h.named);
    shelves = h.shelves;
    represent = h.represent;
    room = h.room;
  }

  pub IsSafe-same : (c c1 : Cluster) → IsSafe c → SamePools c c1 → IsSafe c1
  IsSafe-same c c1 (ps, h) same = (ps, At-same ps [] c c1 h same)

  pub AreNamed-written :
      (ps : List IpPool) (more : List Text) (c c1 : Cluster) (q : IpPool)
      → At ps more c
      → HasPools c (set_status q.meta.name q.status c.pools) c1
      → AreNamed (c1.pools ++ created s c1.names)
  AreNamed-written ps more c c1 q h (pools, names) =
      subst (λ (ns : List Text). AreNamed (c1.pools ++ created s ns)) (sym names)
        (subst (λ (qs : List IpPool). AreNamed (qs ++ created s c.names)) (sym pools)
          (AreNamed-status q.meta.name q.status c.pools (created s c.names) h.named))

  -- What a write of `q` in place of `p` does to a shelf that `p` stands for.
  abbrev pub Moves : IpPool → IpPool → List Text → List Text → Type 0
  Moves p q more less =
      (t : Shelf)
      → Represents json p t
      → ((x : Text) → count x more + (count x (keys t.used) + count x t.unused) ≤ 1)
      → (u : Shelf) × Represents json q u
        × (q.meta ≡ p.meta)
        × ((x : Text)
            → count x less + (count x (keys u.used) + count x u.unused)
              ≤ count x more + (count x (keys t.used) + count x t.unused))

  pub update_pool_status-At :
      (before after : List IpPool) (p q : IpPool) (more less : List Text) (c : Cluster)
      → Moves p q more less
      → At (before ++ p ∷ after) more c
      → Post
          (λ _. At (before ++ record p { status = q.status } ∷ after) less)
          (At (before ++ p ∷ after) more)
          (update_pool_status q c)
  update_pool_status-At before after p q more less c moves h =
      let ps : List IpPool = before ++ p ∷ after in
      let (bs, t, cs, e, hb, r, ha) = AllRepresent-one json before after p h.shelves h.represent in
      let (u, represents, same, fewer) = moves t r (λ x. omega (
        arith,
        h.room x,
        ap (λ (ss : List Shelf). count x (all_addresses ss)) e,
        count-one bs cs t x,
      )) in
      let name : q.meta.name ≡ p.meta.name = ap (λ (o : ObjectMeta). o.name) same in
      Post-weaken (λ _. HasPools c (set_status q.meta.name q.status c.pools))
        (λ _. At (before ++ record p { status = q.status } ∷ after) less) (SamePools c) (At ps more)
        (update_pool_status q c)
        (λ _ c1 (pools, names). record {
          listed =
              ap (owned_by s.meta.name) pools
              ∙ owned_by-set_status s.meta.name q.meta.name q.status c.pools
              ∙ ap (set_status q.meta.name q.status) h.listed
              ∙ ap (λ (n : Text). set_status n q.status ps) name
              ∙ set_status-among before after p q.status (At-named ps more c h);
          named = AreNamed-written ps more c c1 q h (pools, names);
          shelves = bs ++ u ∷ cs;
          represent =
              AllRepresent-join json before (record p { status = q.status } ∷ after) bs (u ∷ cs) hb
                (represents, ha);
          room = λ x. omega (
            arith,
            h.room x,
            fewer x,
            ap (λ (ss : List Shelf). count x (all_addresses ss)) e,
            count-one bs cs t x,
            count-one bs cs u x,
          );
        })
        (λ c1 unchanged. At-same ps more c c1 h unchanged) (update_pool_status-Post q c)
