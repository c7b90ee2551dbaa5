-- ===== src/Terminal/Wrapper.antt =====
-- internal/terminal/wrappers.go: the subprotocols of a terminal's websocket.

use gitlab_workhorse.Base.{
  ℕ, ◌==◌, ◌||◌, ◌≡◌, refl, [], ◌∷◌, Option, none, some, Bool, true, false, if◌then◌else◌, arith,
}
use gitlab_workhorse.Base.Text.{Text, codes, text_eq}

-- The kinds of connections that `Wrap` makes, with the field `base64`.
pub data Wrapper : Type 0 where
  kube_wrapper gitlab_wrapper : Bool → Wrapper
  unwrapped : Wrapper

unfoldable pub wrap : Text → Wrapper
wrap subprotocol =
    if text_eq subprotocol (codes "channel.k8s.io")
    then kube_wrapper false
    else if text_eq subprotocol (codes "base64.channel.k8s.io")
    then kube_wrapper true
    else if text_eq subprotocol (codes "terminal.gitlab.com")
    then gitlab_wrapper false
    else if text_eq subprotocol (codes "base64.terminal.gitlab.com")
    then gitlab_wrapper true
    else unwrapped

-- The message types of the package websocket.
abbrev pub text_message : ℕ
text_message = 1

abbrev pub binary_message : ℕ
binary_message = 2

abbrev pub Message : Type 0
Message = ℕ × Text

unfoldable pub is_data : ℕ → Bool
is_data mt = mt == binary_message || mt == text_message

-- `encode` and `decode` are base64; `none` is an error.
module _ (encode : Text → Text) (decode : Text → Option Text) where
  abbrev decoded : Bool → Text → Option Message
  decoded base64 content =
      if base64
      then elim (decode content) [ none ↦ none | some d ↦ some (binary_message, d) ]
      else some (binary_message, content)

  -- `gitlabWrapper.ReadMessage`, on a message of the connection.
  unfoldable pub gitlab_read_message : Bool → Message → Option Message
  gitlab_read_message base64 (mt, content) =
      if is_data mt then decoded base64 content else some (mt, content)

  -- `kubeWrapper.ReadMessage`.
  unfoldable pub kube_read_message : Bool → Message → Option Message
  kube_read_message base64 (mt, []) =
      if is_data mt then some (binary_message, []) else some (mt, [])
  kube_read_message base64 (mt, c ∷ content) =
      if is_data mt then decoded base64 content else some (mt, c ∷ content)

  -- `gitlabWrapper.WriteMessage`: the message that the connection gets.
  unfoldable pub gitlab_write_message : Bool → Message → Message
  gitlab_write_message base64 (mt, content) =
      if is_data mt
      then if base64 then (text_message, encode content) else (binary_message, content)
      else (mt, content)

  -- `kubeWrapper.WriteMessage`.
  unfoldable pub kube_write_message : Bool → Message → Message
  kube_write_message base64 (mt, content) =
      if is_data mt
      then if base64 then (text_message, b'0' ∷ encode content) else (binary_message, 0 ∷ content)
      else (mt, content)

  unfoldable pub read_message : Wrapper → Message → Option Message
  read_message unwrapped m = some m
  read_message (gitlab_wrapper base64) m = gitlab_read_message base64 m
  read_message (kube_wrapper base64) m = kube_read_message base64 m

  unfoldable pub write_message : Wrapper → Message → Message
  write_message unwrapped m = m
  write_message (gitlab_wrapper base64) m = gitlab_write_message base64 m
  write_message (kube_wrapper base64) m = kube_write_message base64 m

  -- What the other end is to receive for a message: data is binary.
  unfoldable pub received : Wrapper → Message → Message
  received unwrapped m = m
  received (gitlab_wrapper base64) (mt, content) =
      (if is_data mt then binary_message else mt, content)
  received (kube_wrapper base64) (mt, content) =
      (if is_data mt then binary_message else mt, content)

  -- Where base64 decodes what it encodes, two wrappers of one subprotocol agree: of each message
  -- that one end writes, the other end reads the content, as a binary message if it was data; other
  -- messages pass as they are, and so do all without a wrapper.
  pub read_message-write_message :
      (round_trip : (d : Text) → decode (encode d) ≡ some d) (wrapper : Wrapper) (m : Message)
      → read_message wrapper (write_message wrapper m) ≡ some (received wrapper m)
  unfolding read_message write_message gitlab_read_message gitlab_write_message kube_read_message
      kube_write_message is_data received
  read_message-write_message round_trip unwrapped m = refl
  read_message-write_message round_trip (gitlab_wrapper false) (mt, content) = ground arith
  read_message-write_message round_trip (gitlab_wrapper true) (mt, content) =
      ground (arith, round_trip content)
  read_message-write_message round_trip (kube_wrapper false) (mt, []) = ground arith
  read_message-write_message round_trip (kube_wrapper false) (mt, c ∷ content) = ground arith
  read_message-write_message round_trip (kube_wrapper true) (mt, []) = ground (arith, round_trip [])
  read_message-write_message round_trip (kube_wrapper true) (mt, c ∷ content) =
      ground (arith, round_trip (c ∷ content))
