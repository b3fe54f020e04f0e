-- ===== src/TopBar/Notifications/Sections.antt =====
-- client/src/components/common/notification-menu.tsx: the sections hold every notification.
use mathlib.Core.List.{Perm, append-nil}
use mathlib.Core.Path.{subst}
use wave_cast.Common.{
  String, ◌≡◌, refl, ap, sym, List, [], ◌∷◌, ◌++◌, length, arith, truthy, or_else,
}
use wave_cast.Common.Partition.{partition-perm}
use wave_cast.TopBar.Notifications.{
  section, NotificationItem, notification_menu, unread_notifications, earlier_notifications,
}

-- The notifications of the sections, from the top.
abbrev pub listed : List (String × List NotificationItem) → List NotificationItem
listed [] = []
listed (s ∷ ss) = s.1 ++ listed ss

listed-section :
    (a b : String) (xs ys : List NotificationItem)
    → listed (section a xs ++ section b ys) ≡ xs ++ ys
listed-section a b [] [] = refl
listed-section a b [] (y ∷ ys) = append-nil (y ∷ ys)
listed-section a b (x ∷ xs) [] = refl
listed-section a b (x ∷ xs) (y ∷ ys) = ap (λ l. x ∷ xs ++ l) (append-nil (y ∷ ys))

-- The menu shows every notification once, and the number on its badge is that of the unread
-- ones, 0 where there is no badge.
notification_menu-perm :
    (items : List NotificationItem)
    → Perm (listed (notification_menu items).sections) items
      × (or_else (notification_menu items).badge 0 ≡ length (unread_notifications items))
unfolding notification_menu unread_notifications earlier_notifications
notification_menu-perm items =
    let unread = unread_notifications items in
    let earlier = earlier_notifications items in
    (
      subst (λ l. Perm l items) (sym (listed-section "New" "Earlier" unread earlier))
          (unfold unread_notifications earlier_notifications in
            partition-perm (λ n. truthy n.unread) items),
      ground arith,
    )
