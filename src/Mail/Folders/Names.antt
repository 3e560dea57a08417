-- ===== src/Mail/Folders/Names.antt =====
-- The names of folders and labels, compared without regard to case and surrounding blanks
-- (`handleSaveFolder` of App.tsx).
use byos_email.Base.{
  ◌≡◌, ◌∙◌, refl, sym, subst, ap, String, Bool, false, not, ◌&&◌, ◌||◌, Option, none, some, List,
  [], ◌∷◌, ◌++◌, str_eq, eq_iff, if◌then◌else◌, any, map, arith, Bool-cases, inl, inr,
}
use byos_email.Base.Text.{Text, trim, to_lower_case, text_eq, text_eq_iff, is_empty}
use byos_email.Mail.{CustomFolder, State}
use byos_email.Mail.Folders.{
  name_key, insert, sort_by_name, is_another, is_duplicate, replace, add_created, Answer, saved,
  refused, Screen, folder_id_of, folder_name_of, folder_saved, handle_save_folder, has_mailbox,
}

module _ {A : Type 0} (id_of : A → String) (name_of : A → Text)
    (locale_leb : Text → Text → Bool) where
  -- Two items that clash.
  abbrev pub same : A → A → Bool
  same a b = str_eq (id_of a) (id_of b) || text_eq (name_key (name_of a)) (name_key (name_of b))

  abbrev pub HasDistinctNames : List A → Type 0
  HasDistinctNames [] = Unit
  HasDistinctNames (a ∷ as') = (any (same a) as' ≡ false) × HasDistinctNames as'

  same_sym : (a b : A) → same a b ≡ false → same b a ≡ false
  same_sym a b h = ground (
    arith,
    eq_iff (id_of a) (id_of b),
    eq_iff (id_of b) (id_of a),
    text_eq_iff (name_key (name_of a)) (name_key (name_of b)),
    text_eq_iff (name_key (name_of b)) (name_key (name_of a)),
  )

  any-insert :
      (p : A → Bool) (x : A) (ys : List A)
      → any p (insert id_of name_of locale_leb x ys) ≡ (p x || any p ys)
  unfolding insert
  any-insert p x [] = refl
  any-insert p x (y ∷ ys) = ground (arith, any-insert p x ys)

  any-sort_by_name :
      (p : A → Bool) (xs : List A) → any p (sort_by_name id_of name_of locale_leb xs) ≡ any p xs
  unfolding sort_by_name
  any-sort_by_name p [] = refl
  any-sort_by_name p (x ∷ xs) =
      any-insert p x (sort_by_name id_of name_of locale_leb xs)
      ∙ ap (◌||◌ (p x)) (any-sort_by_name p xs)

  insert-HasDistinctNames :
      (x : A) (ys : List A)
      → any (same x) ys ≡ false
      → HasDistinctNames ys
      → HasDistinctNames (insert id_of name_of locale_leb x ys)
  unfolding insert
  insert-HasDistinctNames x [] h k = (refl, tt)
  insert-HasDistinctNames x (y ∷ ys) h (k, ks) =
      let first : same x y ≡ false = ground (arith, h) in
      let later : any (same x) ys ≡ false = ground (arith, h) in
      elim (Bool-cases (locale_leb (name_of x) (name_of y))) [
        | inl e ↦ rw e (h, (k, ks))
        | inr e ↦ rw e (
          any-insert (same y) x ys ∙ ground (arith, same_sym x y first, k),
          insert-HasDistinctNames x ys later ks,
        )
      ]

  sort_by_name-HasDistinctNames :
      (xs : List A)
      → HasDistinctNames xs
      → HasDistinctNames (sort_by_name id_of name_of locale_leb xs)
  unfolding sort_by_name
  sort_by_name-HasDistinctNames [] h = tt
  sort_by_name-HasDistinctNames (x ∷ xs) (h, hs) =
      insert-HasDistinctNames x (sort_by_name id_of name_of locale_leb xs)
        (any-sort_by_name (same x) xs ∙ h) (sort_by_name-HasDistinctNames xs hs)

  any-snoc : (p : A → Bool) (xs : List A) (c : A) → any p (xs ++ c ∷ []) ≡ (any p xs || p c)
  any-snoc p [] c = ground arith
  any-snoc p (x ∷ xs) c = ground (arith, any-snoc p xs c)

  snoc-HasDistinctNames :
      (xs : List A) (c : A)
      → HasDistinctNames xs
      → any (same c) xs ≡ false
      → HasDistinctNames (xs ++ c ∷ [])
  snoc-HasDistinctNames [] c h k = (refl, tt)
  snoc-HasDistinctNames (x ∷ xs) c (h, hs) k =
      let first : same c x ≡ false = ground (arith, k) in
      (
        any-snoc (same x) xs c ∙ ground (arith, h, same_sym c x first),
        snoc-HasDistinctNames xs c hs (ground (arith, k)),
      )

  no_clash :
      (clean_name : Text) (created : A) (items : List A)
      → name_key (name_of created) ≡ to_lower_case clean_name
      → any
          (λ item.
            str_eq (id_of item) (id_of created)
            || text_eq (name_key (name_of item)) (to_lower_case clean_name))
          items
        ≡ false
      → any (same created) items ≡ false
  no_clash clean_name created [] e h = refl
  no_clash clean_name created (x ∷ items) e h = ground (
    arith,
    no_clash clean_name created items e,
    h,
    e,
    eq_iff (id_of x) (id_of created),
    eq_iff (id_of created) (id_of x),
    text_eq_iff (name_key (name_of x)) (to_lower_case clean_name),
    text_eq_iff (name_key (name_of created)) (name_key (name_of x)),
  )

  add_created-HasDistinctNames :
      (clean_name : Text) (created : A) (items : List A)
      → name_key (name_of created) ≡ to_lower_case clean_name
      → HasDistinctNames items
      → HasDistinctNames (add_created id_of name_of locale_leb clean_name created items)
  unfolding add_created
  add_created-HasDistinctNames clean_name created items named h =
      elim (Bool-cases (
        any
          (λ item.
            str_eq (id_of item) (id_of created)
            || text_eq (name_key (name_of item)) (to_lower_case clean_name))
          items)) [
            | inl e ↦ rw e h
            | inr e ↦ rw e (
                sort_by_name-HasDistinctNames (items ++ created ∷ []) (
                  snoc-HasDistinctNames items created h
                    (no_clash clean_name created items named e)))
          ]

  module _ (editing updated : A) (same_id : id_of updated ≡ id_of editing) where
    abbrev put : A → A
    put item = if str_eq (id_of item) (id_of editing) then updated else item

    -- Another item than the edited one has the new name.
    abbrev clashes : A → Bool
    clashes item =
        text_eq (name_key (name_of item)) (name_key (name_of updated))
        && is_another id_of name_of locale_leb (some editing) item

    put_none :
        (x : A) (xs : List A) → id_of x ≡ id_of editing → any (same x) xs ≡ false → map put xs ≡ xs
    put_none x [] e h = refl
    put_none x (y ∷ ys) e h =
        let apart : str_eq (id_of y) (id_of editing) ≡ false =
          ground (arith, h, e, eq_iff (id_of x) (id_of y), eq_iff (id_of y) (id_of editing)) in
        rw apart (ap (◌∷◌ y) (put_none x ys e (ground (arith, h))))

    clash_free :
        (xs : List A) (x : A)
        → id_of x ≡ id_of editing
        → any (same x) xs ≡ false
        → any clashes xs ≡ false
        → any (same updated) xs ≡ false
    clash_free [] x e h k = refl
    clash_free (y ∷ ys) x e h k =
        let first : same updated y ≡ false = ground (
          arith,
          h,
          e,
          k,
          same_id,
          eq_iff (id_of x) (id_of y),
          eq_iff (id_of y) (id_of editing),
          eq_iff (id_of updated) (id_of y),
          text_eq_iff (name_key (name_of y)) (name_key (name_of updated)),
          text_eq_iff (name_key (name_of updated)) (name_key (name_of y)),
        ) in
        rw first (clash_free ys x e (ground (arith, h)) (ground (arith, k)))

    any-put :
        (x : A) (xs : List A)
        → same x updated ≡ false
        → any (same x) xs ≡ false
        → any (same x) (map put xs) ≡ false
    any-put x [] u h = refl
    any-put x (y ∷ ys) u h =
        let rest : any (same x) (map put ys) ≡ false = any-put x ys u (ground (arith, h)) in
        elim (Bool-cases (str_eq (id_of y) (id_of editing))) [
          | inl f ↦ rw (f, u) rest
          | inr f ↦ let first : same x y ≡ false = ground (arith, h) in rw (f, first) rest
        ]

    put-HasDistinctNames :
        (xs : List A) → HasDistinctNames xs → any clashes xs ≡ false → HasDistinctNames (map put xs)
    put-HasDistinctNames [] h k = tt
    put-HasDistinctNames (x ∷ xs) (h, hs) k =
        let later : any clashes xs ≡ false = ground (arith, k) in
        elim (Bool-cases (str_eq (id_of x) (id_of editing))) [
          | inl f ↦
              let edited : id_of x ≡ id_of editing = (eq_iff (id_of x) (id_of editing)).0 f in
              rw (f, put_none x xs edited h) (clash_free xs x edited h later, hs)
          | inr f ↦
              let apart : same x updated ≡ false = ground (
                arith,
                f,
                k,
                same_id,
                eq_iff (id_of x) (id_of updated),
                eq_iff (id_of x) (id_of editing),
              ) in
              rw f (any-put x xs apart h, put-HasDistinctNames xs hs later)
        ]

-- The server's answer to a save: the name that was sent, up to case and blanks, and the id of the
-- item that was edited.
abbrev pub IsEcho : Text → Option CustomFolder → Answer CustomFolder → Type 0
IsEcho name editing (refused _) = Unit
IsEcho name none (saved created) = name_key created.name ≡ to_lower_case (trim name)
IsEcho name (some editing) (saved updated) =
    (name_key updated.name ≡ to_lower_case (trim name)) × (updated.id ≡ editing.id)

module _ (locale_leb : Text → Text → Bool) where
  abbrev pub HasDistinctFolders : State → Type 0
  HasDistinctFolders s = HasDistinctNames folder_id_of folder_name_of locale_leb s.custom_folders

  folder_saved-HasDistinctFolders :
      (name : Text) (editing : Option CustomFolder) (answer : Answer CustomFolder) (screen : Screen)
      → IsEcho name editing answer
      → is_duplicate folder_id_of folder_name_of locale_leb
          (trim name)
          editing
          screen.mail.custom_folders
        ≡ false
      → HasDistinctFolders screen.mail
      → HasDistinctFolders (folder_saved locale_leb (trim name) editing answer screen).mail
  unfolding folder_saved is_duplicate replace add_created
  folder_saved-HasDistinctFolders name none (refused message) screen echo new h = h
  folder_saved-HasDistinctFolders name (some editing) (refused message) screen echo new h = h
  folder_saved-HasDistinctFolders name (some editing) (saved updated) screen (named, same_id) new
        h =
      sort_by_name-HasDistinctNames folder_id_of folder_name_of locale_leb _ (
        put-HasDistinctNames folder_id_of folder_name_of locale_leb editing updated same_id
          screen.mail.custom_folders h
          (subst
            (λ key.
              any
                (λ f.
                  text_eq (name_key f.name) key
                  && is_another folder_id_of folder_name_of locale_leb (some editing) f)
                screen.mail.custom_folders
              ≡ false)
            (sym named) new))
  folder_saved-HasDistinctFolders name none (saved created) screen named new h =
      add_created-HasDistinctNames folder_id_of folder_name_of locale_leb (trim name) created
        screen.mail.custom_folders named h

  -- Where no two folders share an id or a name up to case and blanks, saving a folder, new or edited,
  -- leaves it so, provided that the server echoes the name and, for an edit, the id.
  pub handle_save_folder-HasDistinctFolders :
      (name : Text) (answer : Answer CustomFolder) (screen : Screen)
      → IsEcho name screen.folder_to_edit answer
      → HasDistinctFolders screen.mail
      → HasDistinctFolders (handle_save_folder locale_leb name answer screen).mail
  unfolding handle_save_folder
  handle_save_folder-HasDistinctFolders name answer screen echo h =
      elim (Bool-cases (not (has_mailbox locale_leb screen.mail) || is_empty (trim name))) [
        | inl e ↦ rw e h
        | inr e ↦
            elim (Bool-cases (
              is_duplicate folder_id_of folder_name_of locale_leb (trim name) screen.folder_to_edit
                screen.mail.custom_folders)) [
                  | inl f ↦ rw (e, f) h
                  | inr f ↦
                      rw (e, f)
                        (folder_saved-HasDistinctFolders name screen.folder_to_edit answer screen
                          echo f h)
                ]
      ]
