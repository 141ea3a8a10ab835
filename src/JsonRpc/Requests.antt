-- ===== src/JsonRpc/Requests.antt =====
-- The constructor of JSONRPC (src/jsonrpc.h) on a request that is written without spaces.
use mathlib.Core.Option.{some-injective}
use vpl_jail_system.Message.{
  TreeNode, tree_node, Children, no_children, child, ok, get_name, children_of, named_child, nchild,
}
use vpl_jail_system.Message.Steps.{passes}
use vpl_jail_system.Prelude.{
  if◌then◌else◌, Bool-cases, Bytes, codes, drop, str_eq, ℕ, suc, refl, sym, ap, subst, inl, inr,
  Bool, true, false, Option, none, some, [], append-nil, ◌≡◌, ◌∙◌, ◌⊎◌, ◌++◌,
}
use vpl_jail_system.Prelude.Maps.{bytes_eq, nat_eq, Map, lookup, insert, lookup-insert}
use vpl_jail_system.Json.Parser.{get_string, name_of}
use vpl_jail_system.Json.Parser.Printing.{process_raw_data-print}
use vpl_jail_system.Json.Parser.Reading.{Represents, RepresentsFields, node_at-Represents}
use vpl_jail_system.Json.Printed.{
  Value, text, object, Fields, no_fields, field, print, IsPlain, HasPlain, node_at,
}
use vpl_jail_system.JsonRpc.{struct_members, RpcRequest, check_attributes, process_root, json_rpc}

-- The first value under a key.
unfoldable pub first_field : Bytes → Fields → Option Value
first_field k no_fields = none
first_field k (field j v fs) = if str_eq j k then some v else first_field k fs

unfoldable pub count : Fields → ℕ
count no_fields = 0
count (field k v fs) = suc (count fs)

-- The fields of a request, in any order: a method, an id, the parameters and the version, or the first three
-- of them.
pub record IsRequest (fs : Fields) (method id : Bytes) (params : Fields) : Type 0 where
  pub method_field : first_field (codes "method") fs ≡ some (text method)
  pub params_field : first_field (codes "params") fs ≡ some (object params)
  pub id_field : first_field (codes "id") fs ≡ some (text id)
  pub version :
      ((count fs ≡ 4) × (first_field (codes "jsonrpc") fs ≡ some (text (codes "2.0"))))
      ⊎ (count fs ≡ 3)

-- The last value under a key.
unfoldable pub last_field : Bytes → Fields → Option Value → Option Value
last_field k no_fields o = o
last_field k (field j v fs) o = last_field k fs (if str_eq j k then some v else o)

module _ (unset : ℕ) (raw : Bytes) where
  -- What is found in the map reads as the value that is looked for, and nothing is found for no value.
  unfoldable pub Reads : Option Value → Option TreeNode → Type 0
  Reads none none = Unit
  Reads (some v) (some n) = Represents unset raw v n
  Reads _ _ = ⊥

  Reads-if :
      (b : Bool) (v : Value) (n : TreeNode) (o : Option Value) (found : Option TreeNode)
      → Represents unset raw v n
      → Reads o found
      → Reads (if b then some v else o) (if b then some n else found)
  unfolding Reads
  Reads-if true v n o found h r = h
  Reads-if false v n o found h r = r

  struct_members-Reads :
      (fs : Fields) (kids : Children) (ret : Map Bytes TreeNode) (k : Bytes) (o : Option Value)
      → RepresentsFields unset raw fs kids
      → Reads o (lookup k ret)
      → Reads (last_field k fs o) (lookup k (struct_members kids ret))
  unfolding Represents last_field struct_members
  struct_members-Reads no_fields no_children ret k o h r = r
  struct_members-Reads no_fields (child n kids) ret k o h r = absurd h
  struct_members-Reads (field j v fs) no_children ret k o h r = absurd h
  struct_members-Reads (field j v fs) (child n kids) ret k o (name, rep, more) r =
      struct_members-Reads fs kids (insert (get_name n) n ret) k (if str_eq j k then some v else o)
        more
        (rw (lookup-insert (get_name n) k n ret, name)
          (Reads-if (str_eq j k) v n o (lookup k ret) rep r))

  named_text :
      (n : TreeNode) (t : Bytes) → get_string unset raw n ≡ some t → name_of unset raw n ≡ ok t
  unfolding name_of
  named_text n t h = rw (h, name_of) refl

  request_of : Bytes → Bytes → TreeNode → RpcRequest
  request_of method id params = record {
    method = method;
    id = id;
    data_members = struct_members (children_of params) [];
  }

  nchild-count :
      (fs : Fields) (kids : Children) → RepresentsFields unset raw fs kids → nchild kids ≡ count fs
  unfolding Represents nchild count
  nchild-count no_fields no_children h = refl
  nchild-count no_fields (child n kids) h = absurd h
  nchild-count (field k v fs) no_children h = absurd h
  nchild-count (field k v fs) (child n kids) (name, rep, more) =
      ap (λ m. suc m) (nchild-count fs kids more)

  -- The first field of a name is found.
  named_child-first :
      (k : Bytes) (fs : Fields) (kids : Children) (v : Value)
      → RepresentsFields unset raw fs kids
      → first_field k fs ≡ some v
      → (n : TreeNode) × (named_child k kids ≡ ok n) × Represents unset raw v n
  unfolding Represents named_child first_field
  named_child-first k no_fields kids v h e = absurd cc
  named_child-first k (field j u fs) no_children v h e = absurd h
  named_child-first k (field j u fs) (child n kids) v (name, rep, more) e =
      elim (Bool-cases (str_eq j k)) [
        | inl b ↦
            let same : u ≡ v = some-injective _ _ (rw b at e) in
            (n, rw (named_child, name) (rw b refl), subst (λ x. Represents unset raw x n) same rep)
        | inr b ↦
            let (m, found, r) = named_child-first k fs kids v more (rw b at e) in
            (m, rw (named_child, name) (rw b found), r)
      ]

  check_attributes-ok :
      (fs : Fields) (kids : Children)
      → RepresentsFields unset raw fs kids
      → ((count fs ≡ 4) × (first_field (codes "jsonrpc") fs ≡ some (text (codes "2.0"))))
        ⊎ (count fs ≡ 3)
      → check_attributes unset raw kids ≡ ok tt
  unfolding check_attributes Represents
  check_attributes-ok fs kids h (inl (four, version)) =
      let several : nchild kids ≡ 4 = nchild-count fs kids h ∙ four in
      let (n, found, reads) = named_child-first (codes "jsonrpc") fs kids _ h version in
      rw (several, check_attributes) (passes _ found (passes _ (named_text n _ reads) refl))
  check_attributes-ok fs kids h (inr three) =
      let several : nchild kids ≡ 3 = nchild-count fs kids h ∙ three in
      rw (several, check_attributes) (rw several refl)

  process_root-fields :
      (o l : ℕ) (fs params : Fields) (kids : Children) (method id : Bytes)
      → RepresentsFields unset raw fs kids
      → IsRequest fs method id params
      → (p : TreeNode) × (process_root unset raw (tree_node (codes "object") o l kids)
          ≡ ok (request_of method id p))
        × RepresentsFields unset raw params (children_of p)
  unfolding process_root request_of Represents
  process_root-fields o l fs params kids method id h r =
      let (m, found_m, reads_m) = named_child-first _ fs kids _ h r.method_field in
      let (p, found_p, reads_p) = named_child-first _ fs kids _ h r.params_field in
      let (i, found_i, reads_i) = named_child-first _ fs kids _ h r.id_field in
      (
        p,
        passes _ found_m (
            passes _ (named_text m method reads_m) (
              passes _ found_p (
                passes _ found_i (
                  passes _ (named_text i id reads_i)
                    (passes _ (check_attributes-ok fs kids h r.version) refl))))),
        reads_p,
      )

-- A request that is written without spaces, whose attributes are in any order a method and an id that are
-- texts, the parameters and the version 2.0, or the first three of them, gives the object its method, its id and
-- its parameters: under each key the last value that the parameters have for it, read back by the getters,
-- and nothing under a key that they do not have. The numbers in it are to start with a digit or a minus
-- and to hold no comma and no closing bracket.
pub json_rpc-print :
    (unset : ℕ) (fs params : Fields) (method id : Bytes)
    → HasPlain fs
    → IsRequest fs method id params
    → let raw = print (object fs) in
      (r : RpcRequest) × (json_rpc unset raw ≡ ok r)
      × (r.method ≡ method)
      × (r.id ≡ id)
      × ((k : Bytes) → Reads unset raw (last_field k params none) (lookup k r.data_members))
unfolding json_rpc node_at IsPlain Represents lookup Reads request_of
json_rpc-print unset fs params method id plain request =
    let v = object fs in
    let raw = print v in
    let whole : drop 0 raw ≡ raw ++ [] = sym (append-nil raw) in
    let fields = node_at-Represents unset raw v 0 [] whole in
    let (p, made, reads) = process_root-fields unset raw _ _ fs params _ method id fields request in
    (
      _,
      passes _ (process_raw_data-print unset v plain) made,
      refl,
      refl,
      λ k. struct_members-Reads unset raw params _ [] k none reads tt,
    )
