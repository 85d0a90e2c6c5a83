-- ===== src/SocketManager/Reach.antt =====
-- The states that the operations of src/socket_manager.c reach, and what holds of them.
use bootstrap_agency_templat.Prelude.{ℕ, ◌≡◌, refl, subst, Bool, Option, some, List}
use bootstrap_agency_templat.SocketManager.{
  Status, Io, FdSet, fd_set, fd_clr, assign, Sendq, new_sendq, Queues, chain, without, put_chain,
  Sm, Outside, new,
}
use bootstrap_agency_templat.SocketManager
use bootstrap_agency_templat.SocketManager.Fds.{add_fd, remove_fd}
use bootstrap_agency_templat.SocketManager.Send.{send}
use bootstrap_agency_templat.SocketManager.Resend.{resend}
use bootstrap_agency_templat.SocketManager.Flow.{
  IsBalanced, IsReading, new-IsBalanced, enqueue-max, enqueue-all, enqueue-IsBalanced, dequeue-all,
  dequeue-max, dequeue-IsBalanced, defer-IsBalanced, select_fd-IsBalanced, deselect_fd-IsBalanced,
}
use bootstrap_agency_templat.SocketManager.Readers.{
  IsOpen, new-IsOpen, enqueue-IsOpen, dequeue-IsOpen, defer-IsOpen, select_fd-IsOpen,
  deselect_fd-IsOpen,
}
use bootstrap_agency_templat.SocketManager.Top.{IsMax, select_fd-IsMax, deselect_fd-IsMax}
use bootstrap_agency_templat.SocketManager.Select.{Inputs, accept_loop, receive_from}
use bootstrap_agency_templat.SocketManager.Steps.{
  remove_fd-kept, send-kept, resend-kept, accept_loop-kept, receive_from-kept, add_fd-kept,
}
use bootstrap_agency_templat.SocketManager.Kept.{
  Leaves, Stable, Kept, IsPolite, Always, Always-Stable, IsReading-Stable,
}

module _ {S V E : Type 0} (R : Sm S V → Type 0) (out : Outside S V E) (inputs : Inputs S V E) where
  -- One operation, where the assumption on the descriptor that is read from holds.
  pub data Step : Sm S V → Sm S V → Type 0 where
    adds :
        (sm : Sm S V) (fd : ℕ) (ssl : Option S) (value : Option V) (is_server : Bool)
        → Step sm (add_fd sm fd ssl value is_server).0
    removes : (sm : Sm S V) (fd : ℕ) (e : E) → R sm → Step sm (remove_fd out sm fd e).sm
    sends :
        (sm : Sm S V) (fd : ℕ) (bytes : List ℕ) (value : Option V) (e : E)
        → R sm
        → Step sm (send out sm fd bytes value e).sm
    resends : (sm : Sm S V) (fd : ℕ) (e : E) → R sm → Step sm (resend out sm fd e).0
    accepts :
        {sm sm' : Sm S V} (fuel fd : ℕ) (e e' : E)
        → R sm
        → accept_loop out inputs fuel fd sm e ≡ some (sm', e')
        → Step sm sm'
    receives :
        {sm sm' : Sm S V} (fuel fd : ℕ) (e e' : E)
        → R (record sm { curr_recv_fd = fd })
        → receive_from out inputs fuel fd sm e ≡ some (sm', e')
        → Step sm sm'
    enters : (sm : Sm S V) (fd : ℕ) → Step sm (record sm { curr_recv_fd = fd })

  pub data Reaches (sm : Sm S V) : Sm S V → Type 0 where
    here : Reaches sm sm
    next : {t u : Sm S V} → Reaches sm t → Step t u → Reaches sm u

  module _ (P : Sm S V → Type 0) (stable : Stable R) (kept : Kept R P)
      (polite : IsPolite R P out inputs) where
    Step-kept : {t u : Sm S V} → Step t u → P t → P u
    Step-kept (adds sm fd ssl value is_server) v =
        add_fd-kept R P stable kept sm fd ssl value is_server v
    Step-kept (removes sm fd e reading) v =
        remove_fd-kept R P stable kept out inputs polite sm fd e v reading
    Step-kept (sends sm fd bytes value e reading) v =
        send-kept R P stable kept out inputs polite sm fd bytes value e v reading
    Step-kept (resends sm fd e reading) v =
        resend-kept R P stable kept out inputs polite sm fd e v reading
    Step-kept (accepts {sm = sm} fuel fd e e' reading h) v =
        subst (Leaves P) h
          (accept_loop-kept R P stable kept out inputs polite fuel fd sm e v reading)
    Step-kept (receives {sm = sm} fuel fd e e' known h) v =
        subst (Leaves P) h
          (receive_from-kept R P stable kept out inputs polite fuel fd sm e v known)
    Step-kept (enters sm fd) v = kept.reads sm fd v

    pub Reaches-kept : {t u : Sm S V} → Reaches t u → P t → P u
    Reaches-kept here v = v
    Reaches-kept (next r s) v = Step-kept s (Reaches-kept r v)

-- what holds of every manager
pub record IsValid {S V : Type 0} (sm : Sm S V) : Type 0 where
  pub balance : IsOpen sm
  pub top : IsMax sm

pub IsValid-Kept : {S V : Type 0} → Kept {S = S} {V = V} Always IsValid
IsValid-Kept = record {
  maps = λ sm ssl values v. record {
    balance = record {
      entries = v.balance.entries;
      known = v.balance.known;
      opened = v.balance.opened;
    };
    top = v.top;
  };
  reads = λ sm fd v. record {
    balance = record {
      entries = v.balance.entries;
      known = v.balance.known;
      opened = v.balance.opened;
    };
    top = v.top;
  };
  selects = λ sm fd is_server v free. record {
    balance = select_fd-IsOpen sm fd is_server v.balance;
    top = select_fd-IsMax sm fd is_server v.top;
  };
  deselects = λ sm fd is_server v. record {
    balance = deselect_fd-IsOpen sm fd is_server v.balance;
    top = deselect_fd-IsMax sm fd is_server v.top;
  };
  enqueues = λ sm fd value rest v reading. record {
    balance = enqueue-IsOpen sm fd value rest v.balance;
    top =
        rw
          (
            enqueue-max sm fd (chain fd sm.fd_to_sendq) value rest,
            enqueue-all sm fd (chain fd sm.fd_to_sendq) value rest,
          )
          v.top;
  };
  dequeues = λ sm fd q next v h. record {
    balance = dequeue-IsOpen sm fd q next v.balance h;
    top = rw (dequeue-max sm fd q next, dequeue-all sm fd q next) v.top;
  };
  defers = λ sm fd q t next v h same. record {
    balance = defer-IsOpen sm fd q t next v.balance h same;
    top = v.top;
  };
}

new-IsValid : {S V : Type 0} → IsValid (SocketManager.new {S = S} {V = V})
unfolding SocketManager.new
new-IsValid = record { balance = new-IsOpen; top = λ k. refl }

-- In every state that the operations reach from a new manager, in any order and with callbacks that keep
-- this too: `max_fd` is the largest descriptor, and -1 if there is none; a descriptor that is read from
-- is registered; and a registered descriptor is not read from only if one of its sends is blocked.
pub Reaches-IsValid :
    {S V E : Type 0} (out : Outside S V E) (inputs : Inputs S V E)
    → IsPolite Always IsValid out inputs
    → {sm : Sm S V} → Reaches Always out inputs SocketManager.new sm
    → IsValid sm
Reaches-IsValid out inputs polite r =
    Reaches-kept Always out inputs IsValid Always-Stable IsValid-Kept polite r new-IsValid

IsBalanced-Kept : {S V : Type 0} → Kept {S = S} {V = V} IsReading IsBalanced
IsBalanced-Kept = record {
  maps = λ sm ssl values v. record { entries = v.entries; readers = v.readers; alive = v.alive };
  reads = λ sm fd v. record { entries = v.entries; readers = v.readers; alive = v.alive };
  selects = select_fd-IsBalanced;
  deselects = deselect_fd-IsBalanced;
  enqueues = enqueue-IsBalanced;
  dequeues = dequeue-IsBalanced;
  defers = defer-IsBalanced;
}

-- In every state that the operations reach from a new manager as long as the descriptor that is being
-- read from, if there is one, is still registered when the manager is called (a callback that removes it
-- ends this), and with callbacks that keep both: a descriptor is read from exactly if it is registered
-- and none of its sends is blocked, and one whose send is blocked is registered.
pub Reaches-IsBalanced :
    {S V E : Type 0} (out : Outside S V E) (inputs : Inputs S V E)
    → IsPolite IsReading IsBalanced out inputs
    → {sm : Sm S V} → Reaches IsReading out inputs SocketManager.new sm
    → IsBalanced sm
Reaches-IsBalanced out inputs polite r =
    Reaches-kept IsReading out inputs IsBalanced IsReading-Stable IsBalanced-Kept polite r
      new-IsBalanced
