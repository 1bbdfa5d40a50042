-- ===== src/Examples/Copies.antt =====
-- A list of two objects with one map, which is copied.
use yet_another_mysql_operat.Prelude.{◌≡◌, refl, ℕ, [], ◌∷◌, Option, none, some, false, arith}
use yet_another_mysql_operat.Prelude.Text.{Text, codes}
use yet_another_mysql_operat.Prelude.Assoc.{elem, keys}
use yet_another_mysql_operat.Prelude.Decimal.{pos}
use yet_another_mysql_operat.Api.{GroupReplicationSpec, MySqlStatus, str, single_primary}
use yet_another_mysql_operat.Api.DeepCopy.{
  assign, list_deep_copy, deep_copy, unless_nil, new_copy, list_into, copy_objects, objects_into,
  object_into, spec_into, copy_conf,
}
use yet_another_mysql_operat.Api.DeepCopy.Structs.{Address, TypeMeta, Spec, Object, Cell, Memory}
use yet_another_mysql_operat.Api.DeepCopy.Readings.{plain}
use yet_another_mysql_operat.Api.DeepCopy.Copied.{Copies, Later-refl}
use yet_another_mysql_operat.Api.DeepCopy.Layout.{mysql_pointer, list_pointer}
use yet_another_mysql_operat.Api.DeepCopy.Apart.{Apart, deep_copies-Apart}

-- Metadata without references
abbrev K : Type 0
K = Cell Text Text ℕ

assign-Copies : Copies (plain {C = K} {A = Text}) assign
assign-Copies m a v = record { later = Later-refl m; fresh = tt; same = refl; valid = tt }

abbrev group : GroupReplicationSpec
group = record {
  group_name = codes "g";
  mode = single_primary;
  replication_user_secret = [];
  seed_count = pos 3;
  force_bootstrap = false;
  member_weight = pos 50;
}

abbrev state : MySqlStatus
state = record {
  phase = codes "Ready";
  message = [];
  ready_replicas = pos 3;
  current_replicas = pos 3;
  group_replication_bootstrapped = false;
  restart_candidate = [];
}

abbrev spec : Option Address → Spec Address
spec conf = record {
  image = codes "mysql";
  init_image = codes "init";
  storage_class_name = [];
  storage_size = codes "10Gi";
  port = pos 3306;
  root_password_secret_name = [];
  mysql_conf = conf;
  replicas = pos 3;
  group_replication = group;
}

abbrev kind : TypeMeta
kind = record { kind = codes "MySQL"; api_version = codes "v1alpha1" }

abbrev object : Option Address → Object Text Address
object conf = record { type_meta = kind; meta = codes "db"; spec = spec conf; status = state }

-- The map at 0, the array at 1, the list at 2, and an object at 3
abbrev memory : Memory K
memory = record {
  next = 4;
  at = λ p. record {
    conf = (codes "port", str (codes "3306")) ∷ [];
    group_replication = group;
    status = state;
    spec = spec none;
    object = object (some 0);
    objects = object (some 0) ∷ object (some 0) ∷ [];
    list = record { type_meta = kind; meta = codes "7"; items = some 1 };
    other = 0;
  };
}

deep_copies-Apart_example :
    Apart (mysql_pointer plain plain) memory (some 3) (deep_copy assign assign (some 3) memory)
    × Apart
        (list_pointer plain plain)
        memory
        (some 2)
        (list_deep_copy assign assign (some 2) memory)
unfolding elem keys
deep_copies-Apart_example =
    deep_copies-Apart plain plain assign assign assign-Copies assign-Copies memory (some 3) (some 2)
      (omega arith, (tt, (omega arith, (refl, tt))))
      (
        omega arith,
        (
          tt,
          (omega arith, ((tt, (omega arith, (refl, tt))), ((tt, (omega arith, (refl, tt))), tt))),
        ),
      )

-- A list, an array, and a map for each of the two objects.
list_takes_four : (list_deep_copy assign assign (some 2) memory).1.next ≡ 8
unfolding list_deep_copy unless_nil new_copy list_into copy_objects objects_into object_into
    spec_into copy_conf
list_takes_four = refl
