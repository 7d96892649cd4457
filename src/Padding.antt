-- ===== src/Padding.antt =====
-- src/padding.c: the framing that hides payload lengths in the first messages of a tunnel, and its
-- negotiation by headers.
pub mod Downstream
pub mod Upstream
pub mod RoundTrip
pub mod Negotiation
pub mod Reset
mod Tests
