-- ===== src/Launcher/Key/Same.antt =====
-- Parameters that packages/core/src/execution/job-key.ts takes for the same.
use nest_batch.Prelude.{String, ◌≡◌, ◌≢◌, refl, sym, ap, ◌∙◌, ok, err, ◌>>=◌, ok_inj}
use nest_batch.Errors.{BatchError, plain_error, Throws}
use nest_batch.Launcher.Key.{
  Value, undefined, null, bool, number, string, bigint, date, array, object, Values, nil, cons,
  Members, end, member, is_defined, put, canonicalize, canonicalize_all, canonicalize_members,
  canonical_job_key,
}
use nest_batch.Launcher.Key.Order.{put-put}

-- Values that differ in the order of members, and in members that are null or undefined, at any
-- depth. A date is the same as its ISO string.
mutual
  pub data Same : Value → Value → Type 0 where
    itself : (v : Value) → Same v v
    no_value : Same undefined null
    iso_date : (s : String) → Same (date s) (string s)
    arrays : {vs ws : Values} → SameItems vs ws → Same (array vs) (array ws)
    objects : {ms ns : Members} → SameMembers ms ns → Same (object ms) (object ns)

  pub data SameItems : Values → Values → Type 0 where
    no_items : SameItems nil nil
    items :
        {v w : Value} {vs ws : Values}
        → Same v w
        → SameItems vs ws
        → SameItems (cons v vs) (cons w ws)

  pub data SameMembers : Members → Members → Type 0 where
    no_members : SameMembers end end
    members :
        {v w : Value} {ms ns : Members} (k : String)
        → Same v w
        → SameMembers ms ns
        → SameMembers (member k v ms) (member k w ns)
    swapped :
        {ms : Members} (k j : String) (v w : Value)
        → k ≢ j
        → SameMembers (member k v (member j w ms)) (member j w (member k v ms))
    omitted : {v : Value} (k : String) (ms : Members) → Same v null → SameMembers (member k v ms) ms
    both : {ms ns os : Members} → SameMembers ms ns → SameMembers ns os → SameMembers ms os
    back : {ms ns : Members} → SameMembers ms ns → SameMembers ns ms

abbrev the_error : BatchError
the_error = plain_error "BigInt not supported in job key"

abbrev OnlyError : {A : Type 0} → Throws A → Type 0
OnlyError r = (e : BatchError) → r ≡ err e → e ≡ the_error

OnlyError-bind :
    {A B : Type 0} (r : Throws A) (f : A → Throws B)
    → OnlyError r
    → ((a : A) → OnlyError (f a))
    → OnlyError (r >>= f)
OnlyError-bind (ok a) f h k e q = k a e q
OnlyError-bind (err x) f h k e q = h e cc

OnlyError-ok : {A : Type 0} (a : A) → OnlyError (ok a)
OnlyError-ok a e q = cc

mutual
  unfolding canonicalize canonicalize_all canonicalize_members

  single_error : (v : Value) → OnlyError (canonicalize v)
  single_error undefined = OnlyError-ok undefined
  single_error null = OnlyError-ok undefined
  single_error (bool b) = OnlyError-ok (bool b)
  single_error (number n) = OnlyError-ok (number n)
  single_error (string s) = OnlyError-ok (string s)
  single_error (bigint n) = λ e q. cc
  single_error (date s) = OnlyError-ok (string s)
  single_error (array vs) =
      OnlyError-bind (canonicalize_all vs) (λ ws. ok (array ws)) (single_error_all vs)
        (λ ws. OnlyError-ok (array ws))
  single_error (object ms) =
      OnlyError-bind (canonicalize_members ms) (λ ns. ok (object ns)) (single_error_members ms)
        (λ ns. OnlyError-ok (object ns))

  single_error_all : (vs : Values) → OnlyError (canonicalize_all vs)
  single_error_all nil = OnlyError-ok nil
  single_error_all (cons v vs) =
      OnlyError-bind (canonicalize v) (λ w. canonicalize_all vs >>= λ ws. ok (cons w ws))
        (single_error v)
        (λ w.
          OnlyError-bind (canonicalize_all vs) (λ ws. ok (cons w ws)) (single_error_all vs)
            (λ ws. OnlyError-ok (cons w ws)))

  single_error_members : (ms : Members) → OnlyError (canonicalize_members ms)
  single_error_members end = OnlyError-ok end
  single_error_members (member k v ms) =
      OnlyError-bind (canonicalize v) (λ w. canonicalize_members ms >>= λ ns. ok (put k w ns))
        (single_error v)
        (λ w.
          OnlyError-bind (canonicalize_members ms) (λ ns. ok (put k w ns)) (single_error_members ms)
            (λ ns. OnlyError-ok (put k w ns)))

-- Two computations that throw one error can change places.
swap_lem :
    (k j : String) (r q : Throws Value) (rest : Throws Members)
    → k ≢ j
    → OnlyError r
    → OnlyError q
    → (r >>= λ a. (q >>= λ b. rest >>= λ ns. ok (put j b ns)) >>= λ ns. ok (put k a ns))
      ≡ (q >>= λ b. (r >>= λ a. rest >>= λ ns. ok (put k a ns)) >>= λ ns. ok (put j b ns))
swap_lem k j (ok a) (ok b) (ok ns) differs h g = ap ok (put-put k j a b ns differs)
swap_lem k j (ok a) (ok b) (err e) differs h g = refl
swap_lem k j (ok a) (err e) rest differs h g = refl
swap_lem k j (err e) (ok b) rest differs h g = refl
swap_lem k j (err e) (err x) rest differs h g =
    let p : e ≡ the_error = h e refl in let q : x ≡ the_error = g x refl in cc

omit_lem :
    (k : String) (r : Throws Value) (rest : Throws Members)
    → r ≡ ok undefined
    → (r >>= λ a. rest >>= λ ns. ok (put k a ns)) ≡ rest
unfolding put is_defined
omit_lem k (ok v) (ok ns) h = let q : v ≡ undefined = ok_inj h in rw q refl
omit_lem k (ok v) (err e) h = refl
omit_lem k (err e) rest h = absurd cc

mutual
  unfolding canonicalize canonicalize_all canonicalize_members

  agree_value : (v w : Value) → Same v w → canonicalize v ≡ canonicalize w
  agree_value _ _ (itself v) = refl
  agree_value _ _ no_value = refl
  agree_value _ _ (iso_date s) = refl
  agree_value _ _ (arrays {vs} {ws} h) = ap (λ r. r >>= λ ws. ok (array ws)) (agree_all vs ws h)
  agree_value _ _ (objects {ms} {ns} h) =
      ap (λ r. r >>= λ ws. ok (object ws)) (agree_members ms ns h)

  agree_all : (vs ws : Values) → SameItems vs ws → canonicalize_all vs ≡ canonicalize_all ws
  agree_all _ _ no_items = refl
  agree_all _ _ (items {v} {w} {vs} {ws} h hs) =
      ap (λ r. r >>= λ a. canonicalize_all vs >>= λ xs. ok (cons a xs)) (agree_value v w h)
      ∙ ap (λ rs. canonicalize w >>= λ a. rs >>= λ xs. ok (cons a xs)) (agree_all vs ws hs)

  agree_members :
      (ms ns : Members) → SameMembers ms ns → canonicalize_members ms ≡ canonicalize_members ns
  agree_members _ _ no_members = refl
  agree_members _ _ (members {v} {w} {ms} {ns} k h hs) =
      ap (λ r. r >>= λ a. canonicalize_members ms >>= λ xs. ok (put k a xs)) (agree_value v w h)
      ∙ ap (λ rs. canonicalize w >>= λ a. rs >>= λ xs. ok (put k a xs)) (agree_members ms ns hs)
  agree_members _ _ (swapped {ms} k j v w differs) =
      swap_lem k j (canonicalize v) (canonicalize w) (canonicalize_members ms) differs
        (single_error v) (single_error w)
  agree_members _ _ (omitted {v} k ms h) =
      omit_lem k (canonicalize v) (canonicalize_members ms) (agree_value v null h)
  agree_members _ _ (both {ms} {ns} {os} h g) = agree_members ms ns h ∙ agree_members ns os g
  agree_members _ _ (back {ms} {ns} h) = sym (agree_members ms ns h)

-- Parameters that differ, at any depth, in the order of members, in members that are null or
-- undefined, or in a date given as its ISO string, have one job key, or throw one error.
pub canonical_job_key-Same :
    (digest : Value → String) (ms ns : Members)
    → SameMembers ms ns
    → canonical_job_key digest ms ≡ canonical_job_key digest ns
unfolding canonical_job_key
canonical_job_key-Same digest ms ns h =
    ap (λ r. r >>= λ canonical. ok (digest canonical))
      (agree_value (object ms) (object ns) (objects h))
