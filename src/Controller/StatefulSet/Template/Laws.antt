-- ===== src/Controller/StatefulSet/Template/Laws.antt =====
-- What the StatefulSet that the controller writes refers to, and that writing it twice is writing it
-- once.
use yet_another_mysql_operat.Prelude.{
  ◌≡◌, refl, ◌⊎◌, inl, inr, [], ◌∷◌, some, All, Any, arith, ◌++◌,
}
use yet_another_mysql_operat.Prelude.Result.{Result, ok, Result-cases}
use yet_another_mysql_operat.Prelude.Text.{Text, text_eq_iff}
use yet_another_mysql_operat.Prelude.Assoc.{Map, put}
use yet_another_mysql_operat.Api.{MySql}
use yet_another_mysql_operat.Util.{config_hash_annotation}
use yet_another_mysql_operat.Controller.Objects.{ObjectMeta}
use yet_another_mysql_operat.Controller.StatefulSet.{VolumeMount, StatefulSet}
use yet_another_mysql_operat.Controller.StatefulSet.Template.{
  init_container, mysql_container, volumes, claim, pod_template, mutate_stateful_set, app_labels,
}

module _ {Quantity : Type 0} where
  -- A mount names a volume of the template or a claim of the set.
  abbrev pub Resolves : StatefulSet Quantity → VolumeMount → Type 0
  Resolves sts m =
      Any (λ v. v.name ≡ m.name) sts.template.volumes
      ⊎ Any (λ c. c.name ≡ m.name) sts.volume_claim_templates

  abbrev pub MountsResolve : StatefulSet Quantity → Type 0
  MountsResolve sts =
      All (λ c. All (Resolves sts) c.volume_mounts)
        (sts.template.init_containers ++ sts.template.containers)

-- Writing a key again changes nothing more.
put_again : (k : Text) (v : Text) (m : Map Text) → put k v (put k v m) ≡ put k v m
unfolding put
put_again k v [] = ground (arith, text_eq_iff k k)
put_again k v ((j, w) ∷ m) = ground (arith, put_again k v m)

module _ {Quantity : Type 0} (set_controller_reference : MySql → ObjectMeta → Result ObjectMeta)
    (must_parse : Text → Result Quantity) (mysql : MySql)
    (secret_name repl_secret_name cfg_name config_hash : Text) where
  abbrev pub mutate : StatefulSet Quantity → Result (StatefulSet Quantity)
  mutate =
      mutate_stateful_set set_controller_reference must_parse mysql secret_name repl_secret_name
        cfg_name config_hash

  -- What is written, for the metadata and the storage that were computed.
  abbrev pub filled : ObjectMeta → Quantity → StatefulSet Quantity → StatefulSet Quantity
  filled meta storage sts = record {
    meta = meta;
    replicas = some mysql.spec.replicas;
    service_name = mysql.name;
    match_labels = app_labels mysql;
    template =
        pod_template mysql secret_name repl_secret_name cfg_name config_hash
          sts.template.annotations;
    volume_claim_templates = claim mysql storage ∷ [];
    ready_replicas = sts.ready_replicas;
  }

  pub record Mutated (sts sts' : StatefulSet Quantity) : Type 0 where
    pub meta : ObjectMeta
    pub storage : Quantity
    pub owned : set_controller_reference mysql sts.meta ≡ ok meta
    pub parsed : must_parse mysql.spec.storage_size ≡ ok storage
    pub result : sts' ≡ filled meta storage sts

  pub mutated : (sts sts' : StatefulSet Quantity) → mutate sts ≡ ok sts' → Mutated sts sts'
  unfolding mutate_stateful_set
  mutated sts sts' e = elim (Result-cases (set_controller_reference mysql sts.meta)) [
    | inl (meta, h) ↦ elim (Result-cases (must_parse mysql.spec.storage_size)) [
      | inl (storage, k) ↦ record {
        meta = meta;
        storage = storage;
        owned = h;
        parsed = k;
        result = ground arith;
      }
      | inr (f, k) ↦ ground arith
    ]
    | inr (f, h) ↦ ground arith
  ]

  filled_resolves :
      (meta : ObjectMeta) (storage : Quantity) (sts : StatefulSet Quantity)
      → MountsResolve (filled meta storage sts)
  unfolding pod_template init_container mysql_container volumes claim
  filled_resolves meta storage sts = (
    (inl (inr (inl refl)), tt),
    (
      (
        inl (inr (inr (inr (inl refl)))),
        (
          inr (inl refl),
          (inl (inl refl), (inl (inr (inl refl)), (inl (inr (inr (inl refl))), tt))),
        ),
      ),
      tt,
    ),
  )

  -- Where the mutation succeeds, each volume mount of each container names a volume or a claim of
  -- the set.
  pub mounts_resolve : (sts sts' : StatefulSet Quantity) → mutate sts ≡ ok sts' → MountsResolve sts'
  mounts_resolve sts sts' e =
      let m = mutated sts sts' e in rw m.result (filled_resolves m.meta m.storage sts)

  -- Where the mutation succeeds and setting the owner again changes nothing, a second mutation
  -- changes nothing.
  pub template_stable :
      (sts sts' : StatefulSet Quantity)
      → mutate sts ≡ ok sts'
      → set_controller_reference mysql sts'.meta ≡ ok sts'.meta
      → mutate sts' ≡ ok sts'
  unfolding mutate_stateful_set pod_template
  template_stable sts sts' e h =
      let m = mutated sts sts' e in
      ground (
        arith,
        m.result,
        m.parsed,
        put_again config_hash_annotation config_hash sts.template.annotations,
      )
