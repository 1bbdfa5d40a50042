-- ===== src/Api/DeepCopy/Layout.antt =====
-- How the structs of api/v1alpha1 are read from memory, and that each `DeepCopyInto` copies what is read.
use yet_another_mysql_operat.Prelude.{
  ◌≡◌, refl, sym, ap, false, List, [], ◌∷◌, ◌++◌, append_assoc, append-nil, Bool-cases, inl, inr,
  Option, arith,
}
use yet_another_mysql_operat.Prelude.Text.{Text, text_eq, text_eq_iff, text_eq_sound}
use yet_another_mysql_operat.Prelude.Assoc.{Map, put, keys, elem, Distinct}
use yet_another_mysql_operat.Api.{MysqlConf}
use yet_another_mysql_operat.Api.DeepCopy.{
  copy_entries, conf_into, copy_conf, spec_into, object_into, objects_into, copy_objects, list_into,
  deep_copy, list_deep_copy, unless_nil,
}
use yet_another_mysql_operat.Api.DeepCopy.Structs.{Address, Spec, Object, ObjectList, Cell, Action}
use yet_another_mysql_operat.Api.DeepCopy.Readings.{
  Reading, entries, pointer, nullable, both, each, via,
}
use yet_another_mysql_operat.Api.DeepCopy.Copied.{
  Copies, Later-refl, both-Copied, in_turn-Copies, via-Copied, unless_nil-Copies, new_copy-Copies,
}

module _ {V : Type 0} (k : Text) (v : V) (m : Map V) where
  differs :
      (j : Text) (out : Map V) → elem j (keys (out ++ (k, v) ∷ m)) ≡ false → text_eq j k ≡ false
  unfolding elem keys
  differs j [] h = elim (Bool-cases (text_eq j k)) [
    | inl same ↦ ground (arith, h, (text_eq_iff k j).1 (sym (text_eq_sound j k same)))
    | inr other ↦ other
  ]
  differs j ((i, w) ∷ out) h = differs j out (ground (arith, h))

  put_new : (out : Map V) → Distinct (out ++ (k, v) ∷ m) → put k v out ≡ out ++ (k, v) ∷ []
  unfolding put
  put_new [] d = refl
  put_new ((j, w) ∷ out) (h, d) = rw (differs j out h, put_new out d) refl

copy_entries-Distinct :
    {V : Type 0} (m out : Map V) → Distinct (out ++ m) → copy_entries m out ≡ out ++ m
unfolding copy_entries
copy_entries-Distinct [] out d = rw (append-nil out) refl
copy_entries-Distinct ((k, v) ∷ m) out d =
    let e = append_assoc out ((k, v) ∷ []) m in
    rw (put_new k v m out d, copy_entries-Distinct m (out ++ (k, v) ∷ []) (rw e d), e) refl

module _ {Meta ListMeta Other MetaView ListMetaView : Type 0}
    (metadata : Reading (Cell Meta ListMeta Other) Meta MetaView)
    (list_metadata : Reading (Cell Meta ListMeta Other) ListMeta ListMetaView) where
  abbrev pub confs : Reading (Cell Meta ListMeta Other) Address MysqlConf
  confs = pointer entries (λ c. c.conf)

  abbrev pub with_conf : Option MysqlConf → Spec Address → Spec MysqlConf
  with_conf conf s = record {
    image = s.image;
    init_image = s.init_image;
    storage_class_name = s.storage_class_name;
    storage_size = s.storage_size;
    port = s.port;
    root_password_secret_name = s.root_password_secret_name;
    mysql_conf = conf;
    replicas = s.replicas;
    group_replication = s.group_replication;
  }

  abbrev pub specs : Reading (Cell Meta ListMeta Other) (Spec Address) (Spec MysqlConf)
  specs = via (λ s. s.mysql_conf) with_conf (nullable confs)

  abbrev pub with_parts :
      MetaView × Spec MysqlConf → Object Meta Address → Object MetaView MysqlConf
  with_parts parts o = record {
    type_meta = o.type_meta;
    meta = parts.0;
    spec = parts.1;
    status = o.status;
  }

  abbrev pub objects :
      Reading (Cell Meta ListMeta Other) (Object Meta Address) (Object MetaView MysqlConf)
  objects = via (λ o. (o.meta, o.spec)) with_parts (both metadata specs)

  abbrev pub with_items :
      ListMetaView × Option (List (Object MetaView MysqlConf))
      → ObjectList ListMeta Address
      → ObjectList ListMetaView (List (Object MetaView MysqlConf))
  with_items parts l = record { type_meta = l.type_meta; meta = parts.0; items = parts.1 }

  abbrev pub lists :
      Reading
        (Cell Meta ListMeta Other)
        (ObjectList ListMeta Address)
        (ObjectList ListMetaView (List (Object MetaView MysqlConf)))
  lists =
      via (λ l. (l.meta, l.items)) with_items
        (both list_metadata (nullable (pointer (each objects) (λ c. c.objects))))

  abbrev pub mysql_pointer :
      Reading (Cell Meta ListMeta Other) (Option Address) (Option (Object MetaView MysqlConf))
  mysql_pointer = nullable (pointer objects (λ c. c.object))

  abbrev pub list_pointer :
      Reading
        (Cell Meta ListMeta Other)
        (Option Address)
        (Option (ObjectList ListMetaView (List (Object MetaView MysqlConf))))
  list_pointer = nullable (pointer lists (λ c. c.list))

  copy_conf-Copies : Copies confs copy_conf
  unfolding copy_conf
  copy_conf-Copies =
      new_copy-Copies entries conf_into
        (λ m a d. record {
          later = Later-refl m;
          fresh = tt;
          same = copy_entries-Distinct a [] d;
          valid = rw (copy_entries-Distinct a [] d) d;
        })
        (λ c. c.conf) (λ a c. record c { conf = a }) (λ a c. refl)

  spec_into-Copies : Copies specs spec_into
  unfolding spec_into
  spec_into-Copies m s v =
      via-Copied (nullable confs) (λ s. s.mysql_conf) with_conf m s (spec_into s m)
        (unless_nil-Copies confs copy_conf copy_conf-Copies m s.mysql_conf v) (λ w. refl)

  module _ (meta_into : Meta → Action (Cell Meta ListMeta Other) Meta)
      (list_meta_into : ListMeta → Action (Cell Meta ListMeta Other) ListMeta)
      (meta_copies : Copies metadata meta_into)
      (list_meta_copies : Copies list_metadata list_meta_into) where
    object_into-Copies : Copies objects (object_into meta_into list_meta_into)
    unfolding object_into
    object_into-Copies m o v =
        via-Copied (both metadata specs) (λ o. (o.meta, o.spec)) with_parts m o
          (object_into meta_into list_meta_into o m)
          (in_turn-Copies metadata specs meta_into spec_into meta_copies spec_into-Copies m
            (o.meta, o.spec) v)
          (λ w. refl)

    objects_into-Copies : Copies (each objects) (objects_into meta_into list_meta_into)
    unfolding objects_into
    objects_into-Copies m [] v = record {
      later = Later-refl m;
      fresh = tt;
      same = refl;
      valid = tt;
    }
    objects_into-Copies m (o ∷ os) (v, w) =
        let x = object_into meta_into list_meta_into o m in
        let c =
          both-Copied objects (each objects) m o os x (objects_into meta_into list_meta_into os x.1)
            w (object_into-Copies m o v) (objects_into-Copies x.1 os) in
        record {
          later = c.later;
          fresh = c.fresh;
          same = ap (λ p. p.0 ∷ p.1) c.same;
          valid = c.valid;
        }

    list_into-Copies : Copies lists (list_into meta_into list_meta_into)
    unfolding list_into copy_objects
    list_into-Copies m l v =
        let items = nullable (pointer (each objects) (λ c. c.objects)) in
        via-Copied (both list_metadata items) (λ l. (l.meta, l.items)) with_items m l
          (list_into meta_into list_meta_into l m)
          (in_turn-Copies list_metadata items list_meta_into
            (unless_nil (copy_objects meta_into list_meta_into)) list_meta_copies
            (unless_nil-Copies (pointer (each objects) (λ c. c.objects))
              (copy_objects meta_into list_meta_into)
              (new_copy-Copies (each objects) (objects_into meta_into list_meta_into)
                objects_into-Copies (λ c. c.objects) (λ a c. record c { objects = a })
                (λ a c. refl)))
            m (l.meta, l.items) v)
          (λ w. refl)

    pub deep_copy-Copies : Copies mysql_pointer (deep_copy meta_into list_meta_into)
    unfolding deep_copy
    deep_copy-Copies = unless_nil-Copies (pointer objects (λ c. c.object)) _ (
        new_copy-Copies objects (object_into meta_into list_meta_into) object_into-Copies
          (λ c. c.object) (λ a c. record c { object = a }) (λ a c. refl))

    pub list_deep_copy-Copies : Copies list_pointer (list_deep_copy meta_into list_meta_into)
    unfolding list_deep_copy
    list_deep_copy-Copies = unless_nil-Copies (pointer lists (λ c. c.list)) _ (
        new_copy-Copies lists (list_into meta_into list_meta_into) list_into-Copies (λ c. c.list)
          (λ a c. record c { list = a }) (λ a c. refl))
