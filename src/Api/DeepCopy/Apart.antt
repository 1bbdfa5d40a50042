-- ===== src/Api/DeepCopy/Apart.antt =====
-- `DeepCopy` of api/v1alpha1/zz_generated.deepcopy.go: the copy is apart from what it was made from.
use yet_another_mysql_operat.Prelude.{◌≡◌, ◌≢◌, refl, ◌∙◌, ◌≤◌, Option, arith}
use yet_another_mysql_operat.Api.DeepCopy.{deep_copy, list_deep_copy}
use yet_another_mysql_operat.Api.DeepCopy.Structs.{Address, Cell, Memory, Action}
use yet_another_mysql_operat.Api.DeepCopy.Readings.{All, All-map, Reading}
use yet_another_mysql_operat.Api.DeepCopy.Copied.{Copied, Copies}
use yet_another_mysql_operat.Api.DeepCopy.Layout.{
  mysql_pointer, list_pointer, deep_copy-Copies, list_deep_copy-Copies,
}

module _ {C A V : Type 0} (r : Reading C A V) (m : Memory C) (a : A) (x : A × Memory C) where
  -- The copy reads the same. So does the original after any writes to the addresses that the copy is
  -- read from, and the copy after any writes to addresses that were in use before.
  pub record Apart : Type 0 where
    pub same : r.view x.1 x.0 ≡ r.view m a
    pub original_stays :
        (m' : Memory C)
        → x.1.next ≤ m'.next
        → ((p : Address) → All (λ q. q ≢ p) (r.refs x.1 x.0) → m'.at p ≡ x.1.at p)
        → r.view m' a ≡ r.view m a
    pub copy_stays :
        (m' : Memory C)
        → x.1.next ≤ m'.next
        → ((p : Address) → m.next ≤ p → m'.at p ≡ x.1.at p)
        → r.view m' x.0 ≡ r.view m a

  pub Copied-Apart : r.Valid m a → Copied r m a x → Apart
  Copied-Apart v c =
      let g = c.later.grows in
      record {
        same = c.same;
        original_stays = λ m' g' kept.
            (r.stable m m' a v (omega arith) (
              All-map _ _ (r.refs m a)
                (λ p below.
                  rw
                    (
                      kept p (
                          All-map _ _ (r.refs x.1 x.0)
                            (λ q (lo, hi) e. ground (arith, below, lo, e)) c.fresh),
                      c.later.kept p below,
                    )
                    refl)
                (r.below m a v))).0;
        copy_stays = λ m' g' kept.
            (r.stable x.1 m' x.0 c.valid g'
              (All-map _ _ (r.refs x.1 x.0) (λ p (lo, hi). kept p lo) c.fresh)).0
            ∙ c.same;
      }

module _ {Meta ListMeta Other MetaView ListMetaView : Type 0}
    (metadata : Reading (Cell Meta ListMeta Other) Meta MetaView)
    (list_metadata : Reading (Cell Meta ListMeta Other) ListMeta ListMetaView)
    (meta_into : Meta → Action (Cell Meta ListMeta Other) Meta)
    (list_meta_into : ListMeta → Action (Cell Meta ListMeta Other) ListMeta)
    (meta_copies : Copies metadata meta_into)
    (list_meta_copies : Copies list_metadata list_meta_into) where
  -- Where the library's metadata is copied in this sense: a deep copy of an object, and one of a
  -- list of objects, reads the same as the original. The original reads as before whatever is then
  -- written to the addresses that the copy is read from, and the copy whatever is written to
  -- addresses that were in use before.
  pub deep_copies-Apart :
      (m : Memory (Cell Meta ListMeta Other)) (p l : Option Address)
      → (mysql_pointer metadata list_metadata).Valid m p
      → (list_pointer metadata list_metadata).Valid m l
      → Apart (mysql_pointer metadata list_metadata) m p (deep_copy meta_into list_meta_into p m)
        × Apart
            (list_pointer metadata list_metadata)
            m
            l
            (list_deep_copy meta_into list_meta_into l m)
  deep_copies-Apart m p l v w = (
    Copied-Apart (mysql_pointer metadata list_metadata) m p (deep_copy meta_into list_meta_into p m)
        v
        (deep_copy-Copies metadata list_metadata meta_into list_meta_into meta_copies
          list_meta_copies m p v),
    Copied-Apart (list_pointer metadata list_metadata) m l
        (list_deep_copy meta_into list_meta_into l m) w
        (list_deep_copy-Copies metadata list_metadata meta_into list_meta_into meta_copies
          list_meta_copies m l w),
  )
