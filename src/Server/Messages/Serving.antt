-- ===== src/Server/Messages/Serving.antt =====
-- Requests for a name keep the tables in order.
use nycu_np.Prelude.{ℕ, some, Bytes, c_text, ◌≡◌, refl, ltb, length, Bool-cases, inl, inr}
use nycu_np.Server.Messages.{name, name_exists, set_name, copy_name}
use nycu_np.Server.State.{UserInfo, Server, find_user, put_user, max_user_name_len, name_msg}
use nycu_np.Server.Users.{broadcast_message}
use nycu_np.Server.Tables.{IsServing, IsSameUser, put_user-IsServing}
use nycu_np.Server.UserPipe.Serving.{deref-eq}
use nycu_np.Shell.Kernel.{Log}
use nycu_np.Shell.Run.Post.{Post, Post-bind, Post-seq}

copy_name-IsSameUser :
    (wanted : Bytes) (u : UserInfo) (l : Log) → Post (λ w l'. IsSameUser u w) (copy_name wanted u l)
unfolding copy_name
copy_name-IsSameUser wanted u l =
    elim (Bool-cases (ltb (length (c_text wanted)) max_user_name_len)) [
      | inl fits ↦ rw fits (record { sock = refl; is_connected = refl })
      | inr long ↦ rw long tt
    ]

pub name-IsServing :
    (id : ℕ) (wanted : Bytes) (sv : Server) (l : Log)
    → IsServing sv
    → Post (λ sv' l'. IsServing sv') (name id wanted sv l)
unfolding name set_name
name-IsServing id wanted sv l v = elim (Bool-cases (name_exists wanted sv.users)) [
  | inl taken ↦ rw taken v
  | inr free ↦ rw free (
      Post-bind (λ me l'. find_user sv id ≡ some me) (λ sv' l'. IsServing sv') _ _
        (deref-eq (find_user sv id) l)
        λ me l₁ mine.
          Post-bind (λ w l'. IsSameUser me w) (λ sv' l'. IsServing sv') _ _
            (copy_name-IsSameUser wanted me l₁)
            λ w l₂ same.
              Post-seq (λ sv' l'. IsServing sv')
                (broadcast_message (name_msg w.ip w.port wanted) (put_user id w sv) l₂) _
                (λ sent l₃. put_user-IsServing id me w sv mine same v))
]
