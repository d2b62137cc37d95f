-- ===== src/Cluster/Registry/Dispatches.antt =====
-- crates/orlando-cluster/src/message_registry.rs: what a registration makes of later calls.
use orlando.Base.{
  ℕ, ◌≡◌, ◌≢◌, refl, subst, sym, ◌∙◌, ◌∷◌, ◌++◌, Option, some, ltb, if◌then◌else◌, same_refl,
  lookup, lookup-insert, err, arith,
}
use orlando.Core.Ids.{Text, text_key}
use orlando.Persistence.Store.{Bytes}
use orlando.Cluster.Ring.{colon}
use orlando.Cluster.Registry.{
  Encoding, unsupported_message_version, Context, Handler, pair_key, MessageRegistry, Registration,
  pair_of, added, register, dispatch, of_grain, of_message, versioned, too_new, run_handler,
}

register-added :
    {W : Type 0}
    → (r : Registration W) (m m' : MessageRegistry W) → register r m ≡ some m'
    → added r m ≡ m'
unfolding register
register-added r m m' h = ground (arith, h)

module _ {W : Type 0} (key : Text) (payload : Bytes) (encoding : Encoding) (context : Context)
    (r : Registration W) (m m' : MessageRegistry W) (w : W) where
  -- A call is answered from what the registry has for its two names.
  dispatch-known :
      (grain_type message_type : Text) (version : ℕ) (x : MessageRegistry W) (v : Option ℕ)
      (h : Option (Handler W))
      → lookup grain_type x.grain_types ≡ some grain_type
      → lookup message_type x.message_types ≡ some message_type
      → lookup message_type x.message_versions ≡ v
      → lookup (record { grain_type = grain_type; message_type = message_type }) x.handlers ≡ h
      → dispatch key payload encoding context grain_type message_type version x w
        ≡ versioned key payload encoding context
            (too_new message_type version v)
            (grain_type ++ (colon ∷ colon ∷ message_type))
            h
            w
  unfolding dispatch of_grain of_message
  dispatch-known grain_type message_type version x v h e1 e2 e3 e4 = rw (e1, e2, e3, e4) refl

  -- A call of a registered grain and message reaches its handler, at any version up to the one that
  -- was registered, and is refused with both versions at a newer one.
  pub dispatch-register :
      (version : ℕ)
      → register r m ≡ some m'
      → dispatch key payload encoding context r.grain_type r.message_type version m' w ≡ (
          if ltb r.version version
          then (w, err (unsupported_message_version r.message_type version r.version))
          else r.handler key payload encoding context w)
  unfolding added versioned too_new run_handler pair_of
  dispatch-register version h =
      subst
        (λ (x : MessageRegistry W).
          dispatch key payload encoding context r.grain_type r.message_type version x w ≡ (
            if ltb r.version version
            then (w, err (unsupported_message_version r.message_type version r.version))
            else r.handler key payload encoding context w))
        (register-added r m m' h)
        (dispatch-known r.grain_type r.message_type version (added r m) (some r.version)
            (some r.handler) (rw (lookup-insert, same_refl) refl)
            (rw (lookup-insert, same_refl) refl) (rw (lookup-insert, same_refl) refl)
            (rw (lookup-insert, same_refl) refl)
          ∙ ground arith)

  -- A registration leaves the calls of other registered messages as they were.
  pub dispatch-register_other :
      (grain_type message_type : Text) (version : ℕ)
      → register r m ≡ some m'
      → lookup grain_type m.grain_types ≡ some grain_type
      → lookup message_type m.message_types ≡ some message_type
      → message_type ≢ r.message_type
      → dispatch key payload encoding context grain_type message_type version m' w
        ≡ dispatch key payload encoding context grain_type message_type version m w
  unfolding added pair_of
  dispatch-register_other grain_type message_type version h g t ne =
      subst
        (λ (x : MessageRegistry W).
          dispatch key payload encoding context grain_type message_type version x w
          ≡ dispatch key payload encoding context grain_type message_type version m w)
        (register-added r m m' h)
        (dispatch-known grain_type message_type version (added r m)
            (lookup message_type m.message_versions)
            (lookup (record { grain_type = grain_type; message_type = message_type }) m.handlers)
            (ground (arith, g, lookup-insert r.grain_type grain_type r.grain_type m.grain_types))
            (ground
              (arith, t, lookup-insert r.message_type message_type r.message_type m.message_types))
            (ground
              (arith, ne, lookup-insert r.message_type message_type r.version m.message_versions))
            (ground (
              arith,
              ne,
              lookup-insert (pair_of r)
                  (record { grain_type = grain_type; message_type = message_type }) r.handler
                  m.handlers,
            ))
          ∙ sym (
              dispatch-known grain_type message_type version m
                (lookup message_type m.message_versions)
                (lookup (record { grain_type = grain_type; message_type = message_type })
                  m.handlers)
                g t refl refl))
