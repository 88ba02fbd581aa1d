-- ===== src/Codegen/Methods/Experimental.antt =====
-- What it means that a node is experimental as a whole.
use copilot_sdk_swift.Prelude.{
  String, ◌≡◌, ◌↔◌, refl, Bool, true, false, List, [], ◌∷◌, ◌++◌, arith, inl, inr, Bool-cases,
  if-true, if-false, ◌⊎◌,
}
use copilot_sdk_swift.Js.Value.{
  Value, undefined, null, bool, num, str, arr, obj, func, Items, nil, cons, Fields, end, field, has,
}
use copilot_sdk_swift.Codegen.Methods.{
  methods_at, methods_of, methods_of_items, is_experimental, some_in, every,
  is_node_fully_experimental,
}

-- A method stands in a value where no method is around it.
mutual
  pub data IsMethodAt (m : Value) : Value → Type 0 where
    here : {fs : Fields} → m ≡ obj fs → has "rpcMethod" fs ≡ true → IsMethodAt m (obj fs)
    inside : {fs : Fields} → has "rpcMethod" fs ≡ false → IsMethodOf m fs → IsMethodAt m (obj fs)
    among : {xs : Items} → IsMethodIn m xs → IsMethodAt m (arr xs)

  pub data IsMethodOf (m : Value) : Fields → Type 0 where
    first : {k : String} {v : Value} {fs : Fields} → IsMethodAt m v → IsMethodOf m (field k v fs)
    later : {k : String} {v : Value} {fs : Fields} → IsMethodOf m fs → IsMethodOf m (field k v fs)

  pub data IsMethodIn (m : Value) : Items → Type 0 where
    head : {v : Value} {vs : Items} → IsMethodAt m v → IsMethodIn m (cons v vs)
    tail : {v : Value} {vs : Items} → IsMethodIn m vs → IsMethodIn m (cons v vs)

-- The same as a predicate on the list of methods.
data IsListed (m : Value) : List Value → Type 0 where
  now : {ms : List Value} → IsListed m (m ∷ ms)
  next : {n : Value} {ms : List Value} → IsListed m ms → IsListed m (n ∷ ms)

IsListed-append_left :
    {m : Value} {xs : List Value} (ys : List Value) → IsListed m xs → IsListed m (xs ++ ys)
IsListed-append_left ys now = now
IsListed-append_left ys (next l) = next (IsListed-append_left ys l)

IsListed-append_right :
    {m : Value} (xs : List Value) {ys : List Value} → IsListed m ys → IsListed m (xs ++ ys)
IsListed-append_right [] l = l
IsListed-append_right (x ∷ xs) l = next (IsListed-append_right xs l)

IsListed-append_cases :
    {m : Value} (xs ys : List Value) → IsListed m (xs ++ ys) → IsListed m xs ⊎ IsListed m ys
IsListed-append_cases [] ys l = inr l
IsListed-append_cases (x ∷ xs) ys now = inl now
IsListed-append_cases (x ∷ xs) ys (next l) = elim (IsListed-append_cases xs ys l) [
  | inl a ↦ inl (next a)
  | inr b ↦ inr b
]

every-IsListed :
    (p : Value → Bool) (ms : List Value) {m : Value}
    → every p ms ≡ true
    → IsListed m ms
    → p m ≡ true
unfolding every
every-IsListed p [] h l = elim l [ ]
every-IsListed p (m ∷ ms) h now = ground (arith, h)
every-IsListed p (n ∷ ms) h (next l) = every-IsListed p ms (ground (arith, h)) l

every-all :
    (p : Value → Bool) (ms : List Value)
    → ((m : Value) → IsListed m ms → p m ≡ true)
    → every p ms ≡ true
unfolding every
every-all p [] h = refl
every-all p (m ∷ ms) h = ground (arith, h m now, every-all p ms (λ n l. h n (next l)))

some_in-IsListed : (ms : List Value) → some_in ms ≡ true → (m : Value) × IsListed m ms
some_in-IsListed [] h = absurd (cc h)
some_in-IsListed (m ∷ ms) h = (m, now)

IsListed-some_in : {m : Value} (ms : List Value) → IsListed m ms → some_in ms ≡ true
IsListed-some_in [] l = elim l [ ]
IsListed-some_in (n ∷ ms) l = refl

coe-IsListed : {m : Value} {xs ys : List Value} → xs ≡ ys → IsListed m xs → IsListed m ys
coe-IsListed e l = rw (← e) l

only : (m n : Value) → IsListed m (n ∷ []) → m ≡ n
only m n now = refl
only m n (next l) = elim l [ ]

mutual
  unfolding methods_at

  IsListed-methods_at : {m : Value} (v : Value) → IsMethodAt m v → IsListed m (methods_at v)
  IsListed-methods_at undefined r = elim r [ ]
  IsListed-methods_at null r = elim r [ ]
  IsListed-methods_at (bool b) r = elim r [ ]
  IsListed-methods_at (num n) r = elim r [ ]
  IsListed-methods_at (str s) r = elim r [ ]
  IsListed-methods_at (func s) r = elim r [ ]
  IsListed-methods_at (obj fs) (here e h) = rw (e, h) now
  IsListed-methods_at (obj fs) (inside h r) = rw h (IsListed-methods_of fs r)
  IsListed-methods_at (arr xs) (among r) = IsListed-methods_of_items xs r

  IsListed-methods_of : {m : Value} (fs : Fields) → IsMethodOf m fs → IsListed m (methods_of fs)
  IsListed-methods_of end r = elim r [ ]
  IsListed-methods_of (field k v fs) (first r) =
      IsListed-append_left (methods_of fs) (IsListed-methods_at v r)
  IsListed-methods_of (field k v fs) (later r) =
      IsListed-append_right (methods_at v) (IsListed-methods_of fs r)

  IsListed-methods_of_items :
      {m : Value} (xs : Items) → IsMethodIn m xs → IsListed m (methods_of_items xs)
  IsListed-methods_of_items nil r = elim r [ ]
  IsListed-methods_of_items (cons v vs) (head r) =
      IsListed-append_left (methods_of_items vs) (IsListed-methods_at v r)
  IsListed-methods_of_items (cons v vs) (tail r) =
      IsListed-append_right (methods_at v) (IsListed-methods_of_items vs r)

mutual
  unfolding methods_at

  method_at : {m : Value} (v : Value) → IsListed m (methods_at v) → IsMethodAt m v
  method_at undefined l = elim l [ ]
  method_at null l = elim l [ ]
  method_at (bool b) l = elim l [ ]
  method_at (num n) l = elim l [ ]
  method_at (str s) l = elim l [ ]
  method_at (func s) l = elim l [ ]
  method_at (arr xs) l = among (method_in xs l)
  method_at {m} (obj fs) l = elim (Bool-cases (has "rpcMethod" fs)) [
    | inl b ↦ here (only m (obj fs) (coe-IsListed (if-true _ _ _ b) l)) b
    | inr b ↦ inside b (method_of fs (coe-IsListed (if-false _ _ _ b) l))
  ]

  method_of : {m : Value} (fs : Fields) → IsListed m (methods_of fs) → IsMethodOf m fs
  method_of end l = elim l [ ]
  method_of (field k v fs) l = elim (IsListed-append_cases (methods_at v) (methods_of fs) l) [
    | inl a ↦ first (method_at v a)
    | inr b ↦ later (method_of fs b)
  ]

  method_in : {m : Value} (xs : Items) → IsListed m (methods_of_items xs) → IsMethodIn m xs
  method_in nil l = elim l [ ]
  method_in (cons v vs) l = elim (IsListed-append_cases (methods_at v) (methods_of_items vs) l) [
    | inl a ↦ head (method_at v a)
    | inr b ↦ tail (method_in vs b)
  ]

-- isNodeFullyExperimental holds of a node exactly if there is a method in it, at any depth but not inside
-- of another method, and each of them is marked experimental.
pub is_node_fully_experimental_iff :
    (node : Fields)
    → (is_node_fully_experimental node ≡ true) ↔ (
        ((m : Value) × IsMethodOf m node)
        × ((m : Value) → IsMethodOf m node → is_experimental m ≡ true))
unfolding is_node_fully_experimental
is_node_fully_experimental_iff node = (
  λ h.
      let (m, l) = some_in-IsListed (methods_of node) (ground (arith, h)) in
      (
        (m, method_of node l),
        λ n r.
            every-IsListed is_experimental (methods_of node) (ground (arith, h))
              (IsListed-methods_of node r),
      ),
  λ h. ground (
    arith,
    IsListed-some_in (methods_of node) (IsListed-methods_of node h.0.1),
    every-all is_experimental (methods_of node) (λ n l. h.1 n (method_of node l)),
  ),
)
