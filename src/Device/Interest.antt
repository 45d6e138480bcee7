-- ===== src/Device/Interest.antt =====
-- api/src/unix/api_loop.h: what each of the calls leaves in the events that a descriptor waits for.
use libapi.Base.{◌≡◌, refl, Bool, true, false}
use libapi.Device.{EventSet, read_add, read_del, write_add, write_del, update}

pub add_input :
    (o : Bool) (e : EventSet)
    → e.output ≡ o
    → ((read_add e).input ≡ true) × ((read_add e).priority ≡ true) × ((read_add e).output ≡ o)
unfolding read_add update
add_input true e h = rw h (refl, refl, refl)
add_input false e h = rw h (refl, refl, refl)

pub del_input :
    (o : Bool) (e : EventSet)
    → e.output ≡ o
    → ((read_del e).input ≡ false) × ((read_del e).priority ≡ false) × ((read_del e).output ≡ o)
unfolding read_del update
del_input true e h = rw h (refl, refl, refl)
del_input false e h = rw h (refl, refl, refl)

pub add_output :
    (i : Bool) (e : EventSet)
    → e.input ≡ i
    → ((write_add e).input ≡ i) × ((write_add e).priority ≡ i) × ((write_add e).output ≡ true)
unfolding write_add update
add_output true e h = rw h (refl, refl, refl)
add_output false e h = rw h (refl, refl, refl)

pub del_output :
    (i : Bool) (e : EventSet)
    → e.input ≡ i
    → ((write_del e).input ≡ i) × ((write_del e).priority ≡ i) × ((write_del e).output ≡ false)
unfolding write_del update
del_output true e h = rw h (refl, refl, refl)
del_output false e h = rw h (refl, refl, refl)
