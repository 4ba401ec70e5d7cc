-- ===== src/Pagination/Keyset.antt =====
-- Keyset pages: the query of a ListByTeam or ListTransactionsPage (`WHERE key < cursor ORDER BY key
-- DESC LIMIT limit + 1`) with the trimming of absencePage, ListByTeam of polls and ListTransactions,
-- over the rows of a team in the order of the listing.
use team_manager.Base.{
  ℕ, zero, suc, ◌-◌, ◌≤◌, ◌<◌, ◌≡◌, refl, sym, ap, ◌∙◌, Bool, true, false, List, [], ◌∷◌, ◌++◌,
  Option, none, some, inl, inr, In, All, All-In, All-of_In, select, length, length-take, take, drop,
  ltb, ltb→lt, if◌then◌else◌, Bool-cases, arith,
}

-- The last element of a list that the code knows to be non-empty.
abbrev pub last : {A : Type 0} → A → List A → A
last x [] = x
last x (y ∷ ys) = last y ys

module _ {A C : Type 0} (cursor_of : A → C) (after : C → A → Bool) where
  -- `WHERE … AND (key) < (cursor) ORDER BY key DESC LIMIT n`
  unfoldable pub list_rows : List A → ℕ → Option C → List A
  list_rows rows n none = take n rows
  list_rows rows n (some c) = take n (select (after c) rows)

  -- `if len(rows) > limit { rows = rows[:limit]; last := rows[len(rows)-1]; next = … }`
  unfoldable pub page : ℕ → List A → List A × Option C
  page limit rows =
      if ltb limit (length rows)
      then elim (take limit rows) [
        | [] ↦ ([], none)
        | x ∷ xs ↦ (x ∷ xs, some (cursor_of (last x xs)))
      ]
      else (rows, none)

  unfoldable pub list_page : List A → ℕ → Option C → List A × Option C
  unfolding list_rows page
  list_page rows limit cur = page limit (list_rows rows (suc limit) cur)

  -- A client that follows the cursors from a page on, for at most `fuel` pages.
  unfoldable pub walk : ℕ → List A → ℕ → Option C → List A
  unfolding list_page
  walk zero rows limit cur = []
  walk (suc fuel) rows limit cur =
      let p = list_page rows limit cur in
      elim p.1 [ none ↦ p.0 | some c ↦ p.0 ++ walk fuel rows limit (some c) ]

  abbrev pub Before : A → A → Type 0
  Before x y = (after (cursor_of x) y ≡ true) × (after (cursor_of y) x ≡ false)

  -- The rows are in the strict order of the cursor: a row comes after the cursors of the rows before
  -- it, and not after its own or a later one.
  abbrev pub Ordered : List A → Type 0
  Ordered [] = Unit
  Ordered (x ∷ xs) = (after (cursor_of x) x ≡ false) × All (Before x) xs × Ordered xs

  select-All : (p : A → Bool) (xs : List A) → All (λ y. p y ≡ true) xs → select p xs ≡ xs
  select-All p [] h = refl
  select-All p (x ∷ xs) h = rw h.0 (ap (λ ys. x ∷ ys) (select-All p xs h.1))

  last-In : (x : A) (xs rest : List A) → In (last x xs) ((x ∷ xs) ++ rest)
  last-In x [] rest = inl refl
  last-In x (y ∷ ys) rest = inr (last-In y ys rest)

  append_In : (pre : List A) (x : A) (ys : List A) → In x ys → In x (pre ++ ys)
  append_In [] x ys i = i
  append_In (p ∷ pre) x ys i = inr (append_In pre x ys i)

  -- The rows after the cursor of a page's last row are the rows after the page.
  select-last :
      (pre : List A) (x : A) (xs rest : List A)
      → Ordered (pre ++ ((x ∷ xs) ++ rest))
      → select (after (cursor_of (last x xs))) (pre ++ ((x ∷ xs) ++ rest)) ≡ rest
  select-last (p ∷ pre) x xs rest (own, later, o) =
      let (_, before) =
        All-In (Before p) (last x xs) (pre ++ ((x ∷ xs) ++ rest)) later
          (append_In pre (last x xs) _ (last-In x xs rest)) in
      rw before (select-last pre x xs rest o)
  select-last [] x [] rest (own, later, o) = rw own (
      select-All (after (cursor_of x)) rest
        (All-of_In _ rest (λ y i. (All-In (Before x) y rest later i).0)))
  select-last [] x (y ∷ ys) rest (own, later, o) =
      let (_, before) =
        All-In (Before x) (last y ys) ((y ∷ ys) ++ rest) later (last-In y ys rest) in
      rw before (select-last [] y ys rest o)

take-drop : {A : Type 0} (n : ℕ) (xs : List A) → take n xs ++ drop n xs ≡ xs
take-drop zero xs = refl
take-drop (suc n) [] = refl
take-drop (suc n) (x ∷ xs) = ap (λ ys. x ∷ ys) (take-drop n xs)

take_all : {A : Type 0} (n : ℕ) (xs : List A) → length xs ≤ n → take n xs ≡ xs
take_all zero [] h = refl
take_all zero (x ∷ xs) h = absurd (omega arith)
take_all (suc n) [] h = refl
take_all (suc n) (x ∷ xs) h = ap (λ ys. x ∷ ys) (take_all n xs (omega arith))

take-take-suc : {A : Type 0} (n : ℕ) (xs : List A) → take n (take (suc n) xs) ≡ take n xs
take-take-suc zero xs = refl
take-take-suc (suc n) [] = refl
take-take-suc (suc n) (x ∷ xs) = ap (λ ys. x ∷ ys) (take-take-suc n xs)

length-take_more :
    {A : Type 0} (n : ℕ) (xs : List A) → n < length xs → length (take (suc n) xs) ≡ suc n
length-take_more zero [] h = absurd (omega arith)
length-take_more zero (x ∷ xs) h = refl
length-take_more (suc n) [] h = absurd (omega arith)
length-take_more (suc n) (x ∷ xs) h = omega (arith, length-take_more n xs (omega arith))

length-drop : {A : Type 0} (n : ℕ) (xs : List A) → length (drop n xs) ≡ length xs - n
length-drop zero xs = omega arith
length-drop (suc n) [] = omega arith
length-drop (suc n) (x ∷ xs) = omega (arith, length-drop n xs)

append_assoc : {A : Type 0} (xs ys zs : List A) → (xs ++ ys) ++ zs ≡ xs ++ (ys ++ zs)
append_assoc [] ys zs = refl
append_assoc (x ∷ xs) ys zs = ap (λ r. x ∷ r) (append_assoc xs ys zs)

module _ {A C : Type 0} (cursor_of : A → C) (after : C → A → Bool) where
  -- The page that follows a position: the next rows, and a cursor to the position after them if
  -- there are more.
  page-last :
      (limit : ℕ) (rest : List A)
      → length rest ≤ limit
      → page cursor_of after limit (take (suc limit) rest) ≡ (rest, none)
  unfolding page
  page-last limit rest h = rw (take_all (suc limit) rest (omega arith)) (ground arith)

  page-more :
      (limit : ℕ) (rest : List A) (x : A) (xs : List A)
      → limit < length rest
      → take limit rest ≡ x ∷ xs
      → page cursor_of after limit (take (suc limit) rest) ≡ (x ∷ xs, some (cursor_of (last x xs)))
  unfolding page
  page-more limit rest x xs h e =
      let long : ltb limit (length (take (suc limit) rest)) ≡ true =
        ground (arith, length-take_more limit rest h) in
      rw (long, take-take-suc limit rest, e)

  list_page_at :
      (rows rest : List A) (limit : ℕ) (cur : Option C)
      → ((n : ℕ) → list_rows cursor_of after rows n cur ≡ take n rest)
      → list_page cursor_of after rows limit cur
        ≡ page cursor_of after limit (take (suc limit) rest)
  unfolding list_page
  list_page_at rows rest limit cur from_here =
      ap (page cursor_of after limit) (from_here (suc limit))

  walk-last :
      (fuel : ℕ) (rows items : List A) (limit : ℕ) (cur : Option C)
      → list_page cursor_of after rows limit cur ≡ (items, none)
      → walk cursor_of after (suc fuel) rows limit cur ≡ items
  unfolding walk
  walk-last fuel rows items limit cur h = rw (walk, h) (ap (λ (q : List A × Option C). q.0) h)

  walk-more :
      (fuel : ℕ) (rows items : List A) (limit : ℕ) (cur : Option C) (c : C)
      → list_page cursor_of after rows limit cur ≡ (items, some c)
      → walk cursor_of after (suc fuel) rows limit cur
        ≡ items ++ walk cursor_of after fuel rows limit (some c)
  unfolding walk
  walk-more fuel rows items limit cur c h =
      rw (walk, h)
        (ap (λ (q : List A × Option C). q.0 ++ walk cursor_of after fuel rows limit (some c)) h)

  list_rows-last :
      (rows pre : List A) (x : A) (xs rest : List A) (n : ℕ)
      → rows ≡ pre ++ ((x ∷ xs) ++ rest)
      → Ordered cursor_of after rows
      → list_rows cursor_of after rows n (some (cursor_of (last x xs))) ≡ take n rest
  unfolding list_rows
  list_rows-last rows pre x xs rest n e o =
      ap (λ ys. take n (select (after (cursor_of (last x xs))) ys)) e
      ∙ ap (take n) (select-last cursor_of after pre x xs rest (rw e at o))

  walk_from :
      (fuel : ℕ) (rows pre rest : List A) (limit : ℕ) (cur : Option C)
      → rows ≡ pre ++ rest
      → Ordered cursor_of after rows
      → ((n : ℕ) → list_rows cursor_of after rows n cur ≡ take n rest)
      → 1 ≤ limit
      → length rest < fuel
      → walk cursor_of after fuel rows limit cur ≡ rest
  walk_from zero rows pre rest limit cur e o from_here some_limit enough = absurd (omega arith)
  walk_from (suc fuel) rows pre rest limit cur e o from_here some_limit enough =
      elim (Bool-cases (ltb limit (length rest))) [
        | inr few ↦
            walk-last fuel rows rest limit cur
              (list_page_at rows rest limit cur from_here ∙ page-last limit rest (ground arith))
        | inl many ↦
            let (x, xs, t) =
              nonempty (take limit rest)
                (omega (arith, length-take limit rest, ltb→lt limit (length rest) many)) in
            let parts : rest ≡ (x ∷ xs) ++ drop limit rest =
              sym (take-drop limit rest) ∙ ap (λ ys. ys ++ drop limit rest) t in
            let split : rows ≡ pre ++ ((x ∷ xs) ++ drop limit rest) =
              e ∙ ap (λ ys. pre ++ ys) parts in
            walk-more fuel rows (x ∷ xs) limit cur (cursor_of (last x xs)) (
              list_page_at rows rest limit cur from_here
              ∙ page-more limit rest x xs (ltb→lt limit (length rest) many) t)
            ∙ ap (λ ys. (x ∷ xs) ++ ys)
                (walk_from fuel rows (pre ++ (x ∷ xs)) (drop limit rest) limit
                  (some (cursor_of (last x xs)))
                  (split ∙ sym (append_assoc pre (x ∷ xs) (drop limit rest))) o
                  (λ n. list_rows-last rows pre x xs (drop limit rest) n split o) some_limit
                  (omega (arith, length-drop limit rest, ltb→lt limit (length rest) many)))
            ∙ sym parts
      ]
    where
      nonempty : (ys : List A) → 1 ≤ length ys → (x : A) × (xs : List A) × (ys ≡ x ∷ xs)
      nonempty [] h = absurd (omega arith)
      nonempty (y ∷ ys) h = (y, ys, refl)

  -- A client that starts without a cursor and follows the next cursors, with any limit of at least
  -- one row, gets every row of a listing in the cursor's strict order once and in order, in at most
  -- one page more than the listing has rows.
  pub walk_complete :
      (rows : List A) (limit : ℕ)
      → Ordered cursor_of after rows
      → 1 ≤ limit
      → walk cursor_of after (suc (length rows)) rows limit none ≡ rows
  unfolding list_rows
  walk_complete rows limit o some_limit =
      walk_from (suc (length rows)) rows [] rows limit none refl o (λ n. refl) some_limit
        (omega arith)
