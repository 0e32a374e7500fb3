-- ===== src/Suggest/Details.antt =====
-- Which details of an error are quoted and which remain (cli/internal/errfmt/suggest.go and
-- errfmt.go).
use millstrand.Base.{
  Str, str_eq, str_eq→eq, str_eq_refl, has_prefix, ◌≡◌, ◌≢◌, ◌↔◌, ◌⊎◌, inl, inr, refl, sym, ap, ap₂,
  subst, Bool, true, false, not, ◌&&◌, Bool-cases, List, [], ◌∷◌, ◌++◌, any, In, here, there,
  In-cases, In-map, In-of_map, some, some_cancel, str_lt, arith,
}
use millstrand.Suggest.Offer.{
  Detail, str, other, Details, ByKey, Error, contains, add_if, quotes, value_of, quoted_from,
  quoted_details, insert_key, sort_keys, sorted_values, has_key, is_string, unquoted, unseen,
  remaining_values, last_word,
}

clash : {t : Bool} → t ≡ true → t ≡ false → ⊥
clash p q = cc

-- A string detail that stands in the message.
abbrev pub IsQuoted : Error → Str → Type 0
IsQuoted e value =
    ((key : Str) × In (key, str value) e.details) × (value ≢ []) × (contains e.message value ≡ true)

-- A string detail under a key that does not hold such a string.
abbrev pub Remains : Error → Str → Type 0
Remains e value =
    (key : Str) × In (key, str value) e.details
    × ((v : Str) → In (key, str v) e.details → IsQuoted e v → ⊥)

quotes_iff :
    (message value : Str)
    → (quotes message (str value) ≡ true) ↔ ((value ≢ []) × (contains message value ≡ true))
quotes_iff message value = (
  λ h. (λ q. blank q (ground (arith, h)), ground arith),
  λ (n, c). elim (Bool-cases (str_eq value [])) [
    | inl e ↦ absurd (n (str_eq→eq value [] e))
    | inr e ↦ rw (e, c) refl
  ],
)
  where
    blank : value ≡ [] → str_eq value [] ≡ false → ⊥
    blank q h = clash (subst (λ x. str_eq x [] ≡ true) (sym q) (str_eq_refl [])) h

In-add_if :
    (t : Bool) (key k : Str) (v value : Str) (m : ByKey)
    → In (k, v) (add_if t key value m) ↔ (((t ≡ true) × (k ≡ key) × (v ≡ value)) ⊎ In (k, v) m)
In-add_if true key k v value m = (
  λ i. elim (In-cases i) [
    | inl q ↦ inl (refl, ap (λ (p : Str × Str). p.0) q, ap (λ (p : Str × Str). p.1) q)
    | inr j ↦ inr j
  ],
  λ w. elim w [ inl (_, a, b) ↦ here (ap₂ (λ x y. (x, y)) a b) | inr j ↦ there j ],
)
In-add_if false key k v value m =
    (λ i. inr i, λ w. elim w [ inl (q, a, b) ↦ absurd (clash q refl) | inr j ↦ j ])

In-quoted_from :
    (message : Str) (d : Details) (k v : Str)
    → In (k, v) (quoted_from message d) ↔ (In (k, str v) d × (quotes message (str v) ≡ true))
unfolding quoted_from
In-quoted_from message [] k v = (λ i. elim i [ ], λ (i, q). elim i [ ])
In-quoted_from message ((key, str value) ∷ d) k v =
    let (to, of) = In-quoted_from message d k v in
    let (add, back) =
      In-add_if (quotes message (str value)) key k v value (quoted_from message d) in
    (
      λ i. elim (add i) [
        | inl (t, a, b) ↦ (here (ap₂ (λ x y. (x, str y)) a b), rw b t)
        | inr j ↦ let (i', h) = to j in (there i', h)
      ],
      λ (i, h). elim (In-cases i) [
        | inl q ↦
            let a : k ≡ key = ap (λ (p : Str × Detail). p.0) q in
            let b : v ≡ value = ap (λ (p : Str × Detail). value_of p.1) q in
            back (inl (subst (λ x. quotes message (str x) ≡ true) b h, a, b))
        | inr j ↦ back (inr (of (j, h)))
      ],
    )
In-quoted_from message ((key, other) ∷ d) k v =
    let (to, of) = In-quoted_from message d k v in
    (
      λ i. let (j, h) = to i in (there j, h),
      λ (i, h). elim (In-cases i) [
        | inl q ↦ absurd (clash refl (ap (λ (p : Str × Detail). is_string p.1) q))
        | inr j ↦ of (j, h)
      ],
    )

nothing_quoted : (v : Str) → quotes [] (str v) ≡ true → ⊥
unfolding contains has_prefix str_eq
nothing_quoted [] h = cc
nothing_quoted (c ∷ v) h = cc

In-quoted_iff :
    (e : Error) (k v : Str)
    → In (k, v) (quoted_details e.message e.details)
      ↔ (In (k, str v) e.details × (quotes e.message (str v) ≡ true))
unfolding quoted_details
In-quoted_iff e k v = elim (Bool-cases (str_eq e.message [])) [
  | inr n ↦ rw n (In-quoted_from e.message e.details k v)
  | inl y ↦ rw y (
    λ i. elim i [ ],
    λ (i, h).
        absurd
          (nothing_quoted v (subst (λ m. quotes m (str v) ≡ true) (str_eq→eq e.message [] y) h)),
  )
]

In-insert_key :
    (p : Str × Str) (key value : Str) (m : ByKey)
    → In p (insert_key key value m) ↔ In p ((key, value) ∷ m)
unfolding insert_key
In-insert_key p key value [] = (λ i. i, λ i. i)
In-insert_key p key value ((k, v) ∷ m) = elim (Bool-cases (str_lt key k)) [
  | inl e ↦ rw e (λ i. i, λ i. i)
  | inr e ↦
      let (to, of) = In-insert_key p key value m in
      rw e (
        λ i. elim (In-cases i) [
          | inl q ↦ there (here q)
          | inr j ↦ elim (In-cases (to j)) [ inl q ↦ here q | inr l ↦ there (there l) ]
        ],
        λ i. elim (In-cases i) [
          | inl q ↦ there (of (here q))
          | inr j ↦ elim (In-cases j) [ inl q ↦ here q | inr l ↦ there (of (there l)) ]
        ],
      )
]

In-sort_keys : (p : Str × Str) (m : ByKey) → In p (sort_keys m) ↔ In p m
unfolding sort_keys
In-sort_keys p [] = (λ i. i, λ i. i)
In-sort_keys p ((key, value) ∷ m) =
    let (to, of) = In-sort_keys p m in
    let (out, into) = In-insert_key p key value (sort_keys m) in
    (
      λ i. elim (In-cases (out i)) [ inl q ↦ here q | inr j ↦ there (to j) ],
      λ i. elim (In-cases i) [ inl q ↦ into (here q) | inr j ↦ into (there (of j)) ],
    )

In-sorted_iff : (v : Str) (m : ByKey) → In v (sorted_values m) ↔ ((k : Str) × In (k, v) m)
unfolding sorted_values
In-sorted_iff v m = (
  λ i.
      let ((k, w), j, q) = In-of_map (λ (p : Str × Str). p.1) v (sort_keys m) i in
      (k, (In-sort_keys (k, v) m).0 (subst (λ x. In (k, x) (sort_keys m)) (sym q) j)),
  λ (k, i). In-map (λ (p : Str × Str). p.1) (k, v) (sort_keys m) ((In-sort_keys (k, v) m).1 i),
)

has_key_iff : (key : Str) (m : ByKey) → (has_key key m ≡ false) ↔ ((v : Str) → In (key, v) m → ⊥)
unfolding has_key
has_key_iff key [] = (λ h v i. elim i [ ], λ h. refl)
has_key_iff key ((k, w) ∷ m) =
    let (to, of) = has_key_iff key m in
    elim (Bool-cases (str_eq k key)) [
      | inl e ↦
          rw e
            (λ h v i. absurd (clash refl h), λ h. absurd (h w (here (rw (str_eq→eq k key e) refl))))
      | inr e ↦ rw e (
        λ h v i. elim (In-cases i) [
          | inl q ↦ absurd (clash (rw (sym (ap (λ (p : Str × Str). p.0) q)) (str_eq_refl key)) e)
          | inr j ↦ to h v j
        ],
        λ h. of (λ v i. h v (there i)),
      )
    ]

In-unquoted :
    (q : ByKey) (d : Details) (k v : Str)
    → In (k, v) (unquoted q d) ↔ (In (k, str v) d × (has_key k q ≡ false))
unfolding unquoted
In-unquoted q [] k v = (λ i. elim i [ ], λ (i, h). elim i [ ])
In-unquoted q ((key, str value) ∷ d) k v =
    let (to, of) = In-unquoted q d k v in
    let (add, back) = In-add_if (not (has_key key q) && true) key k v value (unquoted q d) in
    (
      λ i. elim (add i) [
        | inl (t, a, b) ↦ (here (ap₂ (λ x y. (x, str y)) a b), rw a (ground (arith, t)))
        | inr j ↦ let (i', h) = to j in (there i', h)
      ],
      λ (i, h). elim (In-cases i) [
        | inl e ↦
            let a : k ≡ key = ap (λ (p : Str × Detail). p.0) e in
            let b : v ≡ value = ap (λ (p : Str × Detail). value_of p.1) e in
            let free : has_key key q ≡ false = subst (λ x. has_key x q ≡ false) a h in
            back (inl (rw free refl, a, b))
        | inr j ↦ back (inr (of (j, h)))
      ],
    )
In-unquoted q ((key, other) ∷ d) k v =
    let (to, of) = In-unquoted q d k v in
    let (add, back) = In-add_if (not (has_key key q) && false) key k v [] (unquoted q d) in
    (
      λ i. elim (add i) [
        | inl (t, a, b) ↦ absurd (ground (arith, t))
        | inr j ↦ let (i', h) = to j in (there i', h)
      ],
      λ (i, h). elim (In-cases i) [
        | inl e ↦ absurd (clash refl (ap (λ (p : Str × Detail). is_string p.1) e))
        | inr j ↦ back (inr (of (j, h)))
      ],
    )

unseen_sound : (v : Str) (seen vs : List Str) → In v (unseen seen vs) → In v vs
unfolding unseen
unseen_sound v seen [] i = elim i [ ]
unseen_sound v seen (w ∷ vs) i = elim (Bool-cases (any (str_eq w) seen)) [
  | inl e ↦ there (unseen_sound v seen vs (rw (e, unseen) at i))
  | inr e ↦ elim (In-cases (rw (e, unseen) at i)) [
    | inl q ↦ here q
    | inr j ↦ there (unseen_sound v (w ∷ seen) vs j)
  ]
]

unseen_complete :
    (v : Str) (seen vs : List Str) → any (str_eq v) seen ≡ false → In v vs → In v (unseen seen vs)
unfolding unseen any
unseen_complete v seen [] n i = elim i [ ]
unseen_complete v seen (w ∷ vs) n i = elim (Bool-cases (any (str_eq w) seen)) [
  | inl e ↦
      rw (e, unseen)
        (elim (In-cases i) [
          | inl q ↦ absurd (clash e (subst (λ x. any (str_eq x) seen ≡ false) q n))
          | inr j ↦ unseen_complete v seen vs n j
        ])
  | inr e ↦
      rw (e, unseen)
        (elim (Bool-cases (str_eq v w)) [
          | inl q ↦ here (str_eq→eq v w q)
          | inr q ↦ elim (In-cases i) [
            | inl p ↦ here p
            | inr j ↦ there (unseen_complete v (w ∷ seen) vs (rw (q, n) refl) j)
          ]
        ])
]

pub IsQuoted-iff :
    (e : Error) (v : Str) → In v (sorted_values (quoted_details e.message e.details)) ↔ IsQuoted e v
IsQuoted-iff e v =
    let (to, of) = In-sorted_iff v (quoted_details e.message e.details) in
    (
      λ i.
          let (k, j) = to i in
          let (d, h) = (In-quoted_iff e k v).0 j in
          let (n, c) = (quotes_iff e.message v).0 h in ((k, d), n, c),
      λ ((k, d), n, c). of (k, (In-quoted_iff e k v).1 (d, (quotes_iff e.message v).1 (n, c))),
    )

pub remaining_iff :
    (e : Error) (v : Str)
    → In v (remaining_values e.details (quoted_details e.message e.details)) ↔ Remains e v
unfolding remaining_values any
remaining_iff e v =
    let q = quoted_details e.message e.details in
    let (to, of) = In-sorted_iff v (unquoted q e.details) in
    (
      λ i.
          let (k, j) = to (unseen_sound v [] (sorted_values (unquoted q e.details)) i) in
          let (d, h) = (In-unquoted q e.details k v).0 j in
          (
            k,
            d,
            λ w m (_, n, c).
                (has_key_iff k q).0 h w
                  ((In-quoted_iff e k w).1 (m, (quotes_iff e.message w).1 (n, c))),
          ),
      λ (k, d, free).
          let h : has_key k q ≡ false = (has_key_iff k q).1 (λ w m.
            let (i, t) = (In-quoted_iff e k w).0 m in
            let (n, c) = (quotes_iff e.message w).0 t in free w i ((k, i), n, c)) in
          unseen_complete v [] (sorted_values (unquoted q e.details)) refl
            (of (k, (In-unquoted q e.details k v).1 (d, h))),
    )

-- The command ends with the word.
abbrev pub EndsWith : List Str → Str → Type 0
EndsWith command word = (before : List Str) × (command ≡ before ++ (word ∷ []))

pub last_word_iff : (c : List Str) (word : Str) → (last_word c ≡ some word) ↔ EndsWith c word
unfolding last_word
last_word_iff [] word = (λ h. cc, λ (before, q). absurd (nothing before q))
  where
    nothing : (b : List Str) → [] ≡ b ++ (word ∷ []) → ⊥
    nothing [] q = cc
    nothing (x ∷ b) q = cc
last_word_iff (x ∷ []) word = (λ h. ([], ap (λ y. y ∷ []) (some_cancel h)), λ (b, q). only b q)
  where
    only : (b : List Str) → x ∷ [] ≡ b ++ (word ∷ []) → some x ≡ some word
    only [] q = cc
    only (y ∷ []) q = cc
    only (y ∷ z ∷ b) q = cc
last_word_iff (x ∷ y ∷ c) word =
    let (to, of) = last_word_iff (y ∷ c) word in
    (λ h. let (b, q) = to h in (x ∷ b, ap (λ l. x ∷ l) q), λ (b, q). of (tail b q))
  where
    tail : (b : List Str) → x ∷ y ∷ c ≡ b ++ (word ∷ []) → EndsWith (y ∷ c) word
    tail [] q = cc
    tail (z ∷ b) q = (b, cc)
