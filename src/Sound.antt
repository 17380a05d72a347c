-- ===== src/Sound.antt =====
-- src/components/breezy_sound: the voices, the mixer and the stream of samples.
pub mod Stream
pub mod Osc
pub mod Amplitude
pub mod Voice
pub mod Mixer
pub mod Power
pub mod Loudness
pub mod Notes
mod Tests
